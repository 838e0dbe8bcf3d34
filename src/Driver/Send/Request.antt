-- ===== src/Driver/Send/Request.antt =====
-- The transaction and the buffer that `binder_transaction` makes.
use headless_testing.Base.{
  ℕ, ◌%◌, Bool, false, not, ◌&&◌, Option, none, some, List, [], ◌==◌, ltb, if◌then◌else◌, is_some,
  add64, sub64, align8,
}
use headless_testing.Base.Int.{pos}
use headless_testing.Kernel.{Run, ok, Errno}
use headless_testing.Alloc.State.{update}
use headless_testing.Priority.{BinderPriority, binder_supported_policy, Task}
use headless_testing.Driver.State.{
  Binder, BinderTransaction, Reply, br_dead_reply, br_failed_reply, set_txn, set_alloc, with_node,
  with_txn,
}
use headless_testing.Driver.Send.State.{
  TransactionData, Content, SendKernel, Held, Carried, Sending, put_at,
}

-- The driver, with the open descriptors of each process.
abbrev pub System : Type 0
System = Binder × (ℕ → List ℕ)

-- What one call of the function is about: its thread, the data, whether it replies, and the size of
-- the scattered buffers.
pub record Request : Type 0 where
  pub thread : ℕ
  pub tr : TransactionData
  pub reply : Bool
  pub extra_buffers_size : ℕ

-- Synchronous transactions lend their sender's priority, if its policy is a supported one.
unfoldable pub first_priority : Binder → Task → ℕ → Bool → BinderPriority
unfolding binder_supported_policy
first_priority b task p one_way =
    if not one_way && binder_supported_policy task.policy
    then record { sched_policy = task.policy; prio = task.normal_prio }
    else (b.procs p).default_priority

-- The transaction before it has a buffer.
unfoldable pub fresh_txn : SendKernel → Binder → Request → Held → ℕ → BinderTransaction
unfolding first_priority
fresh_txn k b q held p = record {
  from = if not q.reply && not q.tr.one_way then some q.thread else none;
  from_parent = none;
  to_proc = some p;
  to_thread = held.target_thread;
  to_parent = none;
  need_reply = false;
  buffer = none;
  code = q.tr.code;
  one_way = q.tr.one_way;
  accept_fds = q.tr.accept_fds;
  priority = record {
    priority = first_priority b (b.threads q.thread).task p q.tr.one_way;
    saved_priority = record { sched_policy = 0; prio = pos 0 };
    set_priority_called = false;
  };
  sender_euid = k.sender_euid;
  security_ctx = 0;
}

-- The size of the scattered buffers with the sender's security context, and that of the context.
pub record ExtraSize : Type 0 where
  pub total : ℕ
  pub secctx : Option ℕ

abbrev pub secctx_size : ExtraSize → ℕ
secctx_size e = elim e.secctx [ none ↦ 0 | some sz ↦ sz ]

abbrev pub add_secctx : ℕ → Option ℕ → Option ExtraSize
add_secctx extra none = none
add_secctx extra (some sz) =
    let total = add64 extra (align8 sz) in
    if ltb total (align8 sz) then none else some (record { total = total; secctx = some sz })

-- The node asks for the sender's security context, or not; none is an error.
unfoldable pub size_with_secctx : SendKernel → Binder → Option ℕ → ℕ → Run (Option ExtraSize)
size_with_secctx k b none extra = ok (some (record { total = extra; secctx = none }))
size_with_secctx k b (some n) extra = with_node b n λ nd. ok (
    if nd.txn_security_ctx
    then add_secctx extra k.secid_to_secctx
    else some (record { total = extra; secctx = none }))

-- Where user space finds the security context, at the end of the buffer.
abbrev pub secctx_addr : TransactionData → ExtraSize → ℕ → ℕ → ℕ
secctx_addr tr e addr user_buffer_offset =
    let sizes = add64 (add64 (align8 tr.data_size) (align8 tr.offsets_size)) (align8 e.total) in
    if is_some e.secctx
    then add64 (add64 addr (sub64 sizes (align8 (secctx_size e)))) user_buffer_offset
    else 0

-- The transaction and its buffer know each other.
unfoldable pub attach_buffer : Binder → Request → ExtraSize → Held → ℕ → ℕ → ℕ → Run Binder
attach_buffer b q e held p t addr = with_txn b t λ tx.
    let a = b.allocs p in
    let tx' = record tx {
      buffer = some (record { owner = p; addr = addr });
      security_ctx = secctx_addr q.tr e addr a.user_buffer_offset;
    } in
    ok (
      set_alloc (set_txn b t tx') p (record a {
        buffers =
            update addr (λ bf. record bf { transaction = some t; target_node = held.target_node })
              a.buffers;
      }))

-- What the copies leave in the buffer, as the allocator has its size and place.
abbrev pub load : SendKernel → Binder → TransactionData → ℕ → ℕ → Content
load k b tr p addr =
    let c = k.content addr in
    record c {
      memory = record c.memory {
        objects = record c.memory.objects { data_size = tr.data_size };
        user_buffer_offset = (b.allocs p).user_buffer_offset;
      };
    }

-- The start of the scattered buffers, behind the data and the offsets.
abbrev pub sg_start : TransactionData → ℕ → ℕ
sg_start tr addr = align8 (add64 (add64 addr (align8 tr.data_size)) tr.offsets_size)

abbrev pub sending : Request → ExtraSize → Held → ℕ → ℕ → Sending
sending q e held p addr = record {
  thread = q.thread;
  held = held;
  target = p;
  sg_buf_end = sub64 (add64 (sg_start q.tr addr) e.total) (align8 (secctx_size e));
}

-- Before the first object.
abbrev pub first_carried : SendKernel → System → Request → ℕ → ℕ → Carried
first_carried k (b, files) q p addr = record {
  driver = b;
  fds = files p;
  content = load k b q.tr p addr;
  off_min = 0;
  sg_bufp = sg_start q.tr addr;
  last_fixup_obj = none;
  last_fixup_min_off = 0;
  pointers = [];
}

-- The data and the offsets are copied, and their sizes are multiples of 8.
abbrev pub copied : SendKernel → TransactionData → ExtraSize → Bool
copied k tr e = k.copy_data && k.copy_offsets && tr.offsets_size % 8 == 0 && e.total % 8 == 0

abbrev pub update_files : ℕ → (ℕ → List ℕ) → Binder × List ℕ → Option System
update_files p files (b, fds) = some (b, put_at p fds files)

-- -ESRCH says that the target's area is gone: it is dying.
abbrev pub alloc_error : Errno → Reply
alloc_error Errno.esrch = br_dead_reply
alloc_error _ = br_failed_reply
