-- ===== src/Driver/Read/Returns.antt =====
-- What `binder_thread_read` puts in the read buffer for one piece of work.
use headless_testing.Base.{
  ℕ, ◌+◌, Bool, true, false, not, ◌&&◌, Option, none, some, List, [], ◌∷◌, ◌++◌, ◌==◌,
  if◌then◌else◌, is_some, add64, align8,
}
use headless_testing.Kernel.{Run, ok, bug, ◌>>=◌, ◌>>=?◌, done, Errno}
use headless_testing.RbTree.{RbLib}
use headless_testing.Alloc.State.{BinderBuffer, update}
use headless_testing.Driver.State.{
  Binder, BinderTransaction, BinderNode, BufferPtr, Reply, br_ok, Work, transaction_work,
  transaction_complete, node_work, death_work, return_error_work, reply_error_work, set_thread,
  set_txn, set_alloc, with_txn, with_node, with_buffer,
}
use headless_testing.Driver.Transaction.{
  binder_cleanup_transaction, binder_free_transaction, lend_priority,
}
use headless_testing.Driver.Counting.{NodeReturn, read_node}
use headless_testing.Driver.Death.{
  DeathReturn, br_dead_binder, br_clear_death_notification_done, read_death,
}
use headless_testing.Driver.Send.Target.{binder_get_txn_from}
use headless_testing.Driver.Send.Failure.{drop_thread}

-- `struct binder_transaction_data_secctx` as the target reads it, with the bits of `flags` that the
-- driver reads.
pub record TransactionReturn : Type 0 where
  pub target_ptr : ℕ
  pub cookie : ℕ
  pub code : ℕ
  pub one_way : Bool
  pub accept_fds : Bool
  pub sender_pid : ℕ
  pub sender_euid : ℕ
  pub data_size : ℕ
  pub offsets_size : ℕ
  pub buffer : ℕ
  pub offsets : ℕ
  pub secctx : ℕ

-- A return command with its arguments.
pub data Return : Type 0 where
  noop spawn_looper_return transaction_complete_return : Return
  error_return : Reply → Return
  node_return : NodeReturn → ℕ → ℕ → Return
  death_return : DeathReturn → Return
  transaction_return reply_return secctx_return : TransactionReturn → Return

-- The bytes that a return takes.
abbrev pub return_size : Return → ℕ
return_size noop = 4
return_size spawn_looper_return = 4
return_size transaction_complete_return = 4
return_size (error_return code) = 4
return_size (node_return r node_ptr node_cookie) = 20
return_size (death_return r) = 12
return_size (transaction_return tr) = 68
return_size (reply_return tr) = 68
return_size (secctx_return tr) = 76

-- The buffer of returns, by the offset from its start: can the words be put, or the transaction
-- copied? A node's return is put at the offset of the first of them.
pub record ReadBuffer : Type 0 where
  pub put_u32 : ℕ → Bool
  pub put_u64 : ℕ → Bool
  pub put_node : ℕ → NodeReturn → Bool
  pub copy_transaction : ℕ → Bool
  pub tgid : ℕ → ℕ

-- The driver, what is in the buffer by its offset, and where the next return goes.
pub record Reading : Type 0 where
  pub driver : Binder
  pub returns : List (ℕ × Return)
  pub ptr : ℕ

-- After a piece of work: the loop goes on, it is left, or there is an error.
pub data Turn : Type 0 where
  continues : Reading → Turn
  breaks : Reading → Turn
  fails : Reading → Errno → Turn

abbrev pub append_return : Reading → Binder → Return → Reading
append_return r b x = record {
  driver = b;
  returns = r.returns ++ (r.ptr, x) ∷ [];
  ptr = r.ptr + return_size x;
}

abbrev pub with_driver : Reading → Binder → Reading
with_driver r b = record r { driver = b }

abbrev pub append_nodes : Reading → Binder → List NodeReturn → ℕ → ℕ → Reading
append_nodes r b [] node_ptr node_cookie = with_driver r b
append_nodes r b (x ∷ xs) node_ptr node_cookie =
    append_nodes (append_return r b (node_return x node_ptr node_cookie)) b xs node_ptr node_cookie

-- BINDER_WORK_RETURN_ERROR: the two errors of a thread.
unfoldable pub read_return_error : ReadBuffer → Reading → ℕ → Turn
read_return_error u r th =
    let b = r.driver in
    let told = set_thread b th (record (b.threads th) { return_error = br_ok }) in
    if u.put_u32 r.ptr
    then continues (append_return r told (error_return (b.threads th).return_error))
    else fails r Errno.efault

unfoldable pub read_reply_error : ReadBuffer → Reading → ℕ → Turn
read_reply_error u r th =
    let b = r.driver in
    let told = set_thread b th (record (b.threads th) { reply_error = br_ok }) in
    if u.put_u32 r.ptr
    then continues (append_return r told (error_return (b.threads th).reply_error))
    else fails r Errno.efault

unfoldable pub read_complete : ReadBuffer → Reading → Turn
read_complete u r =
    if u.put_u32 r.ptr
    then continues (append_return r r.driver transaction_complete_return)
    else fails r Errno.efault

-- A notification of death may lead to transactions, so that the loop is left.
abbrev pub after_death : Reading → DeathReturn → Turn
after_death r (br_dead_binder cookie) = breaks r
after_death r (br_clear_death_notification_done cookie) = continues r

unfoldable pub read_death_work : ReadBuffer → Reading → ℕ → ℕ → Run Turn
unfolding read_death
read_death_work u r p d = read_death r.driver p d >>= λ x. ok (
    if u.put_u32 r.ptr && u.put_u64 (r.ptr + 4)
    then after_death (append_return r x.0 (death_return x.1)) x.1
    else fails (with_driver r x.0) Errno.efault)

abbrev pub after_node : Reading → BinderNode → Binder × List NodeReturn × Option Errno → Turn
after_node r nd (b, xs, none) = continues (append_nodes r b xs nd.ptr nd.cookie)
after_node r nd (b, xs, some e) = fails (append_nodes r b xs nd.ptr nd.cookie) e

abbrev pub sender_tgid : ReadBuffer → Binder → Option ℕ → ℕ
sender_tgid u b none = 0
sender_tgid u b (some th) = u.tgid (b.threads th).proc

-- What the target reads of transaction `tx` with buffer `bf`.
abbrev pub describe :
    ReadBuffer
    → Binder
    → ℕ
    → BinderTransaction
    → BinderBuffer
    → ℕ
    → ℕ
    → Option ℕ
    → TransactionReturn
describe u b p tx bf target_ptr cookie t_from =
    let start = add64 bf.data_addr (b.allocs p).user_buffer_offset in
    record {
      target_ptr = target_ptr;
      cookie = cookie;
      code = tx.code;
      one_way = tx.one_way;
      accept_fds = tx.accept_fds;
      sender_pid = sender_tgid u b t_from;
      sender_euid = tx.sender_euid;
      data_size = bf.data_size;
      offsets_size = bf.offsets_size;
      buffer = start;
      offsets = add64 start (align8 bf.data_size);
      secctx = tx.security_ctx;
    }

-- BR_TRANSACTION_SEC_CTX for a transaction with a security context.
abbrev pub with_secctx : TransactionReturn → Return → Return
with_secctx tr x = if tr.secctx == 0 then x else secctx_return tr

-- The transaction is the one that the thread serves.
abbrev pub push_served : Binder → ℕ → ℕ → Run Binder
push_served b th t = with_txn b t λ tx. ok (
    set_thread
      (set_txn b t
        (record tx { to_parent = (b.threads th).transaction_stack; to_thread = some th }))
      th (record (b.threads th) { transaction_stack = some t }))

-- `t->buffer->allow_user_free = 1`
abbrev pub allow_free : Binder → BufferPtr → Binder
allow_free b bp =
    let a = b.allocs bp.owner in
    set_alloc b bp.owner
      (record a { buffers = update bp.addr (λ bf. record bf { allow_user_free = true }) a.buffers })

-- The priority that the thread gets, and what it is to serve on the target node.
abbrev pub lend_at : Binder → ℕ → ℕ → BinderTransaction → Option ℕ → Run (Binder × ℕ × ℕ)
lend_at b th t tx none = ok (b, 0, 0)
lend_at b th t tx (some n) = with_node b n λ nd. ok (lend_priority b t tx th nd, nd.ptr, nd.cookie)

abbrev pub is_reply : Option ℕ → Bool
is_reply o = not (is_some o)

module _ (rb : RbLib) (fuel : ℕ) (u : ReadBuffer) (p th : ℕ) where
  -- A transaction that user space cannot be given is undone.
  unfoldable pub fail_transaction : Reading → Binder → ℕ → Option ℕ → Run (Option Turn)
  unfolding drop_thread binder_cleanup_transaction
  fail_transaction r b t t_from = drop_thread rb b t_from >>=? λ b1.
      binder_cleanup_transaction rb fuel b1 t Reply.br_failed_reply >>=? λ b2.
      ok (some (fails (with_driver r b2) Errno.efault))

  -- It was given: the thread serves a call, and replies and one-way transactions are finished.
  unfoldable pub give_transaction :
      Reading → Binder → ℕ → BufferPtr → Option ℕ → Bool → Return → Run (Option Turn)
  unfolding drop_thread binder_free_transaction
  give_transaction r b t bp t_from served x = drop_thread rb b t_from >>=? λ b1.
      let free = allow_free b1 bp in
      (if served then done (push_served free th t) else binder_free_transaction rb free t)
      >>=? λ b2. ok (some (breaks (append_return r b2 x)))

  -- Was it put whole?
  unfoldable pub hand_over :
      Bool → Reading → Binder → ℕ → BufferPtr → Option ℕ → Bool → Return → Run (Option Turn)
  unfolding fail_transaction give_transaction
  hand_over true r b t bp t_from served x = give_transaction r b t bp t_from served x
  hand_over false r b t bp t_from served x = fail_transaction r b t t_from

  -- The call or the reply, described to the thread.
  unfoldable pub put_transaction :
      Reading
      → BinderTransaction
      → ℕ
      → BufferPtr
      → BinderBuffer
      → Binder × ℕ × ℕ
      → Binder × Option ℕ
      → Run (Option Turn)
  unfolding hand_over
  put_transaction r tx t bp bf lent held =
      let tr = describe u held.0 p tx bf lent.1 lent.2 held.1 in
      let reply = is_reply bf.target_node in
      let served = not tx.one_way && not (reply && tr.secctx == 0) in
      let x = with_secctx tr (if reply then reply_return tr else transaction_return tr) in
      hand_over (u.put_u32 r.ptr && u.copy_transaction (r.ptr + 4)) r held.0 t bp held.1 served x

  -- BINDER_WORK_TRANSACTION
  unfoldable pub read_transaction : Reading → ℕ → Run (Option Turn)
  unfolding binder_get_txn_from put_transaction
  read_transaction r t = with_txn r.driver t λ tx. elim tx.buffer [
    | none ↦ bug
    | some bp ↦ with_buffer r.driver bp λ bf. lend_at r.driver th t tx bf.target_node >>= λ lent.
        binder_get_txn_from lent.0 t >>= λ held. put_transaction r tx t bp bf lent held
  ]

  -- The work `w`, which is off its list.
  unfoldable pub read_work : Reading → Work → Run (Option Turn)
  unfolding read_transaction read_return_error read_reply_error read_complete read_death_work
      read_node
  read_work r (transaction_work t) = read_transaction r t
  read_work r (return_error_work e) = ok (some (read_return_error u r e))
  read_work r (reply_error_work e) = ok (some (read_reply_error u r e))
  read_work r (transaction_complete t) = ok (some (read_complete u r))
  read_work r (node_work n) =
      with_node r.driver n
        λ nd. read_node rb (u.put_node r.ptr) r.driver p n >>= λ x. ok (some (after_node r nd x))
  read_work r (death_work d) = done (read_death_work u r p d)
