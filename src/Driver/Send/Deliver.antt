-- ===== src/Driver/Send/Deliver.antt =====
-- The end of `binder_transaction`: the reply or the call is queued where it belongs.
use headless_testing.Base.{
  ℕ, Bool, true, false, not, Option, none, some, [], ◌∷◌, ◌++◌, if◌then◌else◌, is_some,
}
use headless_testing.Kernel.{Run, ok, bug, ◌>>=◌, ◌>>◌, ◌>>=?◌, bug_on, done}
use headless_testing.RbTree.{RbLib}
use headless_testing.Driver.State.{
  Binder, BufferPtr, transaction_work, transaction_complete, thread_todo, wake_up_sync, set_txn,
  set_thread, with_txn, with_buffer,
}
use headless_testing.Driver.Work.{
  binder_enqueue_thread_work, binder_enqueue_deferred_thread_work, binder_dequeue_work,
}
use headless_testing.Driver.Transaction.{
  binder_pop_transaction, binder_free_transaction, binder_proc_transaction,
}
use headless_testing.Driver.Send.State.{Held}
use headless_testing.Driver.Send.Failure.{restore_saved}

-- Was it delivered?
abbrev pub Delivery : Type 0
Delivery = Binder × Bool

-- The call is on top of its sender's stack while it is under way.
abbrev pub push_call : Binder → ℕ → ℕ → ℕ → Run Binder
push_call b th t tcomplete = with_txn b t λ tx.
    let told = binder_enqueue_deferred_thread_work b th (transaction_complete tcomplete) in
    let stack = (told.threads th).transaction_stack in
    ok (
      set_thread (set_txn told t (record tx { need_reply = true; from_parent = stack })) th
        (record (told.threads th) { transaction_stack = some t }))

abbrev pub pop_unsent : ℕ → ℕ → Delivery → Run Delivery
pop_unsent th t (b, true) = ok (b, true)
pop_unsent th t (b, false) = binder_pop_transaction b th t >>= λ b'. ok (b', false)

unfoldable pub deliver_call : Binder → ℕ → ℕ → ℕ → BufferPtr → ℕ → Option ℕ → Run Delivery
unfolding binder_enqueue_deferred_thread_work binder_proc_transaction binder_pop_transaction
deliver_call b th t tcomplete bp p target_thread = with_buffer b bp λ bf.
    bug_on bf.async_transaction
    >> (push_call b th t tcomplete >>= λ pushed.
        binder_proc_transaction pushed t p target_thread >>= pop_unsent th t)

unfoldable pub deliver_one_way : Binder → ℕ → ℕ → ℕ → BufferPtr → ℕ → Held → Run Delivery
unfolding binder_enqueue_thread_work binder_proc_transaction
deliver_one_way b th t tcomplete bp p held = with_buffer b bp λ bf.
    bug_on (not (is_some held.target_node))
    >> (bug_on (not bf.async_transaction)
        >> binder_proc_transaction
            (binder_enqueue_thread_work b th (transaction_complete tcomplete)) t p none)

-- What was not delivered is not completed either.
abbrev pub take_back : ℕ → ℕ → Delivery → Delivery
take_back th tcomplete (b, true) = (b, true)
take_back th tcomplete (b, false) =
    (binder_dequeue_work b (transaction_complete tcomplete) (some (thread_todo th)), false)

module _ (rb : RbLib) where
  -- A reply to transaction `r` goes to the thread `u` that waits for it.
  unfoldable pub hand_reply : Binder → ℕ → ℕ → ℕ → ℕ → Run (Option Delivery)
  unfolding binder_pop_transaction binder_enqueue_thread_work restore_saved binder_free_transaction
  hand_reply b th t r u = done (binder_pop_transaction b u r) >>=? λ popped.
      let queued = binder_enqueue_thread_work popped u (transaction_work t) in
      done (restore_saved (record queued { wakes = queued.wakes ++ wake_up_sync u ∷ [] }) th r)
      >>=? λ restored. binder_free_transaction rb restored r >>=? λ b'. ok (some (b', true))

  unfoldable pub deliver_reply : Binder → ℕ → ℕ → ℕ → BufferPtr → Held → Run (Option Delivery)
  unfolding binder_enqueue_thread_work hand_reply
  deliver_reply b th t tcomplete bp held = elim held.in_reply_to [
    | none ↦ bug
    | some r ↦ elim held.target_thread [
      | none ↦ bug
      | some u ↦
          let told = binder_enqueue_thread_work b th (transaction_complete tcomplete) in
          if (told.threads u).is_dead
          then ok (some (told, false))
          else with_buffer told bp λ bf. bug_on bf.async_transaction >> hand_reply told th t r u
    ]
  ]

  unfoldable pub deliver :
      Binder → ℕ → ℕ → ℕ → BufferPtr → ℕ → Held → Bool → Bool → Run (Option Delivery)
  unfolding deliver_reply deliver_call deliver_one_way binder_dequeue_work
  deliver b th t tcomplete bp p held reply one_way =
      (if reply
        then deliver_reply b th t tcomplete bp held
        else done (
            if one_way
            then deliver_one_way b th t tcomplete bp p held
            else deliver_call b th t tcomplete bp p held.target_thread))
      >>=? λ r. ok (some (take_back th tcomplete r))
