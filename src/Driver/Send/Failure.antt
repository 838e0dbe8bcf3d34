-- ===== src/Driver/Send/Failure.antt =====
-- The error paths of `binder_transaction`: what it holds is given back, and its thread is told.
use headless_testing.Base.{ℕ, Bool, true, false, not, Option, none, some, List, ◌∷◌}
use headless_testing.Kernel.{Run, ok, ◌>>=◌, ◌>>◌, ◌>>=?◌, bug_on, done}
use headless_testing.RbTree.{RbLib}
use headless_testing.Alloc.FreeBuf.{binder_alloc_free_buf}
use headless_testing.Priority.{binder_do_set_priority, binder_restore_priority}
use headless_testing.Driver.State.{
  Binder, BufferPtr, Reply, br_ok, br_error, br_dead_reply, br_failed_reply,
  br_transaction_complete, return_error_work, set_thread, set_alloc, with_txn, with_buffer,
}
use headless_testing.Driver.Work.{binder_enqueue_thread_work}
use headless_testing.Driver.Node.{binder_dec_node, binder_dec_node_tmpref}
use headless_testing.Driver.Lifetime.{binder_proc_dec_tmpref, binder_thread_dec_tmpref}
use headless_testing.Driver.Transaction.{set_buffer_txn, forget_txn, binder_send_failed_reply}
use headless_testing.Driver.FreeBuffer.{binder_transaction_buffer_release}
use headless_testing.Driver.Send.State.{SendKernel, Held, Carried, Sending}

abbrev pub is_ok : Reply → Bool
is_ok br_ok = true
is_ok br_error = false
is_ok br_dead_reply = false
is_ok br_failed_reply = false
is_ok br_transaction_complete = false

-- The error of the thread, which it will read.
abbrev pub tell : Binder → ℕ → Reply → Binder
tell b th code =
    binder_enqueue_thread_work (set_thread b th (record (b.threads th) { return_error = code })) th
      (return_error_work th)

-- The priority that the thread had before transaction `t` is given back to it.
unfoldable pub restore_saved : Binder → ℕ → ℕ → Run Binder
unfolding binder_do_set_priority
restore_saved b th t = with_txn b t λ tx. ok (record b {
  sched = (th, binder_restore_priority (b.threads th).task tx.priority.saved_priority) ∷ b.sched;
})

module _ (rb : RbLib) where
  unfoldable pub drop_thread : Binder → Option ℕ → Run (Option Binder)
  unfolding binder_thread_dec_tmpref
  drop_thread b none = ok (some b)
  drop_thread b (some u) = binder_thread_dec_tmpref rb b u

  unfoldable pub drop_proc : Binder → Option ℕ → Run (Option Binder)
  unfolding binder_proc_dec_tmpref
  drop_proc b none = ok (some b)
  drop_proc b (some p) = binder_proc_dec_tmpref rb b p

  unfoldable pub put_node : Binder → Option ℕ → Run Binder
  unfolding binder_dec_node_tmpref
  put_node b none = ok b
  put_node b (some n) = binder_dec_node_tmpref rb b n

  -- The strong count on the target node, and its temporary reference.
  unfoldable pub drop_target_node : Binder → Option ℕ → Run Binder
  unfolding binder_dec_node binder_dec_node_tmpref
  drop_target_node b none = ok b
  drop_target_node b (some n) =
      binder_dec_node rb b n true false >>= λ b'. binder_dec_node_tmpref rb b' n

  -- The last label: the references on the thread, the process and the node.
  unfoldable pub drop_held : Binder → Held → Run (Option Binder)
  unfolding drop_thread drop_proc drop_target_node
  drop_held b held = drop_thread b held.target_thread >>=? λ b1.
      drop_proc b1 held.target_proc >>=? λ b2. done (drop_target_node b2 held.target_node)

  -- A failed reply completes for its sender, and its caller gets the error. A failed call is the
  -- sender's own error.
  unfoldable pub report_failure : ℕ → Binder → ℕ → Held → Reply → Run (Option Binder)
  unfolding restore_saved binder_send_failed_reply binder_enqueue_thread_work
  report_failure fuel b th held code =
      bug_on (not (is_ok (b.threads th).return_error)) >> elim held.in_reply_to [
        | none ↦ ok (some (tell b th code))
        | some t ↦ restore_saved b th t >>= λ b'.
            binder_send_failed_reply rb fuel (tell b' th br_transaction_complete) t code
      ]

  unfoldable pub fail_early : ℕ → Binder → ℕ → Held → Reply → Run (Option Binder)
  unfolding drop_held report_failure
  fail_early fuel b th held code = drop_held b held >>=? λ b'. report_failure fuel b' th held code

  -- The buffer of the transaction is emptied up to the object where it failed, and freed. Its
  -- release drops the count on the target node.
  unfoldable pub release_sent : SendKernel → Carried → BufferPtr → Held → ℕ → Run (Binder × List ℕ)
  unfolding binder_transaction_buffer_release put_node binder_alloc_free_buf
  release_sent k c bp held failed_at = with_buffer c.driver bp λ bf. do
    (b1, fds) ←
        binder_transaction_buffer_release rb k.files c.content.memory (c.driver, c.fds) bp.owner bf
          (some failed_at)
    b2 ← put_node b1 held.target_node
    let b3 = set_buffer_txn b2 (some bp) none
    freed ← binder_alloc_free_buf rb (b3.allocs bp.owner) bp.addr
    ok (set_alloc b3 bp.owner freed, fds)

  -- A failure with the buffer at hand: the transaction `t` is freed too.
  unfoldable pub fail_late :
      ℕ
      → SendKernel
      → Sending
      → Carried
      → BufferPtr
      → ℕ
      → ℕ
      → Reply
      → Run (Option (Binder × List ℕ))
  unfolding release_sent fail_early
  fail_late fuel k s c bp t failed_at code = done (release_sent k c bp s.held failed_at) >>=? λ r.
      fail_early fuel (forget_txn t r.0) s.thread (record s.held { target_node = none }) code
      >>=? λ b'. ok (some (b', r.1))
