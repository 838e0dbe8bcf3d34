-- ===== src/Driver/Send/Whole.antt =====
-- `binder_transaction` as a whole.
use headless_testing.Base.{ℕ, ◌/◌, true, false, not, ◌&&◌, Option, none, some, List, if◌then◌else◌}
use headless_testing.Kernel.{Run, ok, bug, ◌>>=◌, ◌>>=?◌, done, Ptr, ptr, null_ptr, err_ptr}
use headless_testing.RbTree.{RbLib}
use headless_testing.Alloc.NewBuf.{binder_alloc_new_buf}
use headless_testing.Driver.State.{
  Binder, BufferPtr, Reply, br_dead_reply, br_failed_reply, set_txn, set_alloc,
}
use headless_testing.Driver.Transaction.{forget_txn}
use headless_testing.Driver.Send.State.{SendKernel, Held, Found, Carried, Sending}
use headless_testing.Driver.Send.Request.{
  System, Request, fresh_txn, ExtraSize, size_with_secctx, attach_buffer, first_carried, sending,
  copied, update_files, alloc_error,
}
use headless_testing.Driver.Send.Target.{find_target}
use headless_testing.Driver.Send.Objects.{carry_from}
use headless_testing.Driver.Send.Failure.{fail_early, fail_late, drop_thread, drop_proc, put_node}
use headless_testing.Driver.Send.Deliver.{Delivery, deliver}

module _ (rb : RbLib) (k : SendKernel) (fuel : ℕ) where
  -- The transaction `t` is delivered: what is held on its target is given back.
  unfoldable pub settle : Binder → Held → Run (Option Binder)
  unfolding drop_thread drop_proc put_node
  settle b held = drop_thread rb b held.target_thread >>=? λ b1.
      drop_proc rb b1 held.target_proc >>=? λ b2. done (put_node rb b2 held.target_node)

  unfoldable pub after_delivery :
      Sending → Carried → BufferPtr → ℕ → ℕ → Delivery → Run (Option (Binder × List ℕ))
  unfolding settle fail_late
  after_delivery s c bp t count (b, true) = settle b s.held >>=? λ b'. ok (some (b', c.fds))
  after_delivery s c bp t count (b, false) =
      fail_late rb fuel k s (record c { driver = b }) bp t count br_dead_reply

  -- After the loop over the objects.
  unfoldable pub after_objects :
      Request
      → Sending
      → BufferPtr
      → ℕ
      → ℕ
      → ℕ
      → Carried × Option ℕ
      → Run (Option (Binder × List ℕ))
  unfolding fail_late deliver after_delivery
  after_objects q s bp t tcomplete count (c, some index) =
      fail_late rb fuel k s c bp t index br_failed_reply
  after_objects q s bp t tcomplete count (c, none) =
      deliver rb c.driver q.thread t tcomplete bp s.target s.held q.reply q.tr.one_way
      >>=? after_delivery s c bp t count

  -- With the buffer at `addr` attached.
  unfoldable pub fill_buffer :
      System → Request → ExtraSize → Held → ℕ → ℕ → ℕ → ℕ → Run (Option (Binder × List ℕ))
  unfolding fail_late carry_from after_objects
  fill_buffer (b, files) q e held p t tcomplete addr =
      let bp : BufferPtr = record { owner = p; addr = addr } in
      let s = sending q e held p addr in
      let c = first_carried k (b, files) q p addr in
      let count = q.tr.offsets_size / 8 in
      if copied k q.tr e
      then (carry_from rb k s c 0 count >>=? after_objects q s bp t tcomplete count)
      else fail_late rb fuel k s c bp t 0 br_failed_reply

  abbrev pub fail_here : System → Request → Held → Reply → Run (Option System)
  fail_here (b, files) q held code =
      fail_early rb fuel b q.thread held code >>=? λ b'. ok (some (b', files))

  -- What the allocator answers.
  unfoldable pub with_new_buffer :
      System → Request → ExtraSize → Held → ℕ → ℕ → ℕ → Ptr → Run (Option System)
  unfolding fail_early attach_buffer fill_buffer
  with_new_buffer (b, files) q e held p t tcomplete (err_ptr x) =
      fail_here (forget_txn t b, files) q held (alloc_error x)
  with_new_buffer (b, files) q e held p t tcomplete null_ptr = bug
  with_new_buffer (b, files) q e held p t tcomplete (ptr addr) =
      attach_buffer b q e held p t addr >>= λ attached.
      fill_buffer (attached, files) q e held p t tcomplete addr >>=? λ r.
      ok (update_files p files r)

  -- A buffer in the target for the transaction `t`.
  unfoldable pub allocate_buffer :
      System → Request → Held → ℕ → ℕ → ℕ → Option ExtraSize → Run (Option System)
  unfolding fail_early binder_alloc_new_buf with_new_buffer
  allocate_buffer (b, files) q held p t tcomplete none =
      fail_here (forget_txn t b, files) q held br_failed_reply
  allocate_buffer (b, files) q held p t tcomplete (some e) =
      binder_alloc_new_buf rb k.memory (b.allocs p) q.tr.data_size q.tr.offsets_size e.total
        (not q.reply && q.tr.one_way)
      >>= λ r. with_new_buffer (set_alloc b p r.0, files) q e held p t tcomplete r.1

  -- Memory for the transaction and for its completion.
  unfoldable pub allocate_txn : System → Request → Held → ℕ → Run (Option System)
  unfolding fail_early fresh_txn size_with_secctx allocate_buffer
  allocate_txn (b, files) q held p = elim k.kzalloc_t [
    | none ↦ fail_here (b, files) q held br_failed_reply
    | some t ↦ elim k.kzalloc_tcomplete [
      | none ↦ fail_here (b, files) q held br_failed_reply
      | some tcomplete ↦
          let made = set_txn b t (fresh_txn k b q held p) in
          size_with_secctx k made held.target_node q.extra_buffers_size
          >>= allocate_buffer (made, files) q held p t tcomplete
    ]
  ]

  unfoldable pub with_target : (ℕ → List ℕ) → Request → Found → Run (Option System)
  unfolding fail_early allocate_txn
  with_target files q (b, held, some code) = fail_here (b, files) q held code
  with_target files q (b, held, none) = elim held.target_proc [
    | none ↦ bug
    | some p ↦ allocate_txn (b, files) q held p
  ]

  unfoldable pub binder_transaction : System → Request → Run (Option System)
  unfolding find_target with_target
  binder_transaction (b, files) q =
      find_target k fuel b q.thread q.tr q.reply >>=? with_target files q
