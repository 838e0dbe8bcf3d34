-- ===== src/Driver/Release.antt =====
-- What is left of a thread, a node or a process that goes away.
pub mod Process
pub mod Tests
pub mod Stack
use headless_testing.Base.{
  ℕ, zero, suc, ◌+◌, Bool, true, false, not, ◌&&◌, Option, none, some, List, [], ◌∷◌, ◌++◌, ◌==◌,
  if◌then◌else◌, is_some, inc32, erase,
}
use headless_testing.Kernel.{Run, ok, bug, ◌>>=◌, ◌>>◌, bug_on, ◌>>=?◌, done}
use headless_testing.RbTree.{RbLib, rb_first, in_order}
use headless_testing.Driver.State.{
  Binder, BinderNode, BinderThread, BinderTransaction, Work, WorkList, transaction_work,
  transaction_complete, node_work, death_work, return_error_work, reply_error_work, thread_todo,
  proc_todo, async_todo, delivered_death, Wake, wake_up, wake_up_pollfree, br_dead_reply, DeathWork,
  no_death_work, dead_binder, dead_binder_and_clear, clear_death_notification, write, set_txn,
  set_death, set_proc, set_thread, set_node, with_txn, with_death, with_node, with_ref,
}
use headless_testing.Driver.Work.{
  binder_enqueue_work, binder_dequeue_work, binder_dequeue_work_head, binder_wakeup_proc,
}
use headless_testing.Driver.Node.{
  no_refs, binder_free_node, binder_inc_node_tmpref, binder_dec_node_tmpref,
}
use headless_testing.Driver.Ref.{binder_cleanup_ref, binder_free_ref, free_death}
use headless_testing.Driver.Lifetime.{
  inc_proc, inc_thread, binder_proc_dec_tmpref, binder_thread_dec_tmpref,
}
use headless_testing.Driver.Transaction.{
  is_top, set_buffer_txn, binder_send_failed_reply, binder_cleanup_transaction,
}

-- A transaction without the thread that was to serve it, or without the one that sent it.
abbrev pub cut_to : BinderTransaction → BinderTransaction
cut_to tx = record tx { to_proc = none; to_thread = none; buffer = none }

abbrev pub cut_from : BinderTransaction → BinderTransaction
cut_from tx = record tx { from = none }

-- The loop of `binder_thread_release` over the stack of thread `th`, which counts.
unfoldable pub release_stack : ℕ → Binder → ℕ → Option ℕ → ℕ → Run (Option (Binder × ℕ))
release_stack fuel b th none active = ok (some (b, active))
release_stack zero b th (some t) active = ok none
release_stack (suc fuel) b th (some t) active = with_txn b t λ tx. elim (is_top tx.to_thread th) [
  | true ↦
      release_stack fuel (set_txn (set_buffer_txn b tx.buffer none) t (cut_to tx)) th tx.to_parent
        (active + 1)
  | false ↦ elim (is_top tx.from th) [
    | true ↦ release_stack fuel (set_txn b t (cut_from tx)) th tx.from_parent (active + 1)
    | false ↦ bug
  ]
]

-- The transaction that the thread was to reply to.
abbrev pub send_reply : Binder → ℕ → Option ℕ → Run (Option ℕ)
send_reply b th none = ok none
send_reply b th (some t) = with_txn b t λ tx. ok (if is_top tx.to_thread th then some t else none)

-- `wake_up_pollfree` for a thread that was polled.
abbrev pub free_poll : Binder → ℕ → Binder
free_poll b th =
    if (b.threads th).looper.poll
    then record b { wakes = b.wakes ++ wake_up_pollfree th ∷ [] }
    else b

-- The thread `th` of process `p`, dead and off the tree, with the references that its release takes.
abbrev pub bury_thread : RbLib → Binder → ℕ → ℕ → Binder
bury_thread rb b p th =
    let held = inc_thread (inc_proc b p) th in
    let pr = held.procs p in
    let off = set_proc held p (record pr { threads = rb.rb_erase th pr.threads }) in
    set_thread off th (record (off.threads th) { is_dead = true })

-- Every thread of a process returns to user space.
unfoldable pub flush_threads : Binder → List ℕ → Binder
flush_threads b [] = b
flush_threads b (th ∷ ths) =
    let x = b.threads th in
    let b' = set_thread b th (record x { looper_need_return = true }) in
    let woken = record b' { wakes = b.wakes ++ wake_up th ∷ [] } in
    flush_threads (if x.looper.waiting then woken else b') ths

unfoldable pub binder_deferred_flush : Binder → ℕ → Binder
unfolding flush_threads
binder_deferred_flush b p = flush_threads b (in_order (b.procs p).threads)

-- The notification `d` of a process is due.
unfoldable pub notify_death : Binder → ℕ → ℕ → Run Binder
unfolding binder_enqueue_work binder_wakeup_proc
notify_death b p d = with_death b d λ dn. do
  bug_on (is_some dn.entry)
  let l = proc_todo p
  let told = set_death b d (record dn { kind = dead_binder; entry = some l })
  ok (binder_wakeup_proc (binder_enqueue_work told (death_work d) l) p)

-- The loop of `binder_node_release` over the node's references: those that asked are told.
unfoldable pub notify_deaths : Binder → List ℕ → ℕ → Run (Binder × ℕ)
unfolding notify_death
notify_deaths b [] refs = ok (b, refs)
notify_deaths b (r ∷ rs) refs = with_ref b r λ rf. elim rf.death [
  | none ↦ notify_deaths b rs (inc32 refs)
  | some d ↦ notify_death b rf.proc d >>= λ b'. notify_deaths b' rs (inc32 refs)
]

-- The context without its manager node, if that is in process `p`.
abbrev pub drop_context_mgr : Binder → ℕ → Run Binder
drop_context_mgr b p =
    let c = (b.procs p).context in
    elim (b.context_mgr c) [
      | none ↦ ok b
      | some m ↦ with_node b m λ nd.
          ok (if is_top nd.proc p then record b { context_mgr = write c none b.context_mgr } else b)
    ]

module _ (rb : RbLib) where
  -- One work of a list that is released. `chain` is the fuel for failed replies.
  unfoldable pub release_one : ℕ → Binder → Work → Run (Option Binder)
  unfolding binder_cleanup_transaction
  release_one chain b (transaction_work t) = binder_cleanup_transaction rb chain b t br_dead_reply
  release_one chain b (death_work d) = with_death b d λ dn. elim dn.kind [
    | no_death_work ↦ ok (some b)
    | dead_binder ↦ ok (some b)
    | dead_binder_and_clear ↦ ok (some (free_death b (some d)))
    | clear_death_notification ↦ ok (some (free_death b (some d)))
  ]
  release_one chain b (transaction_complete t) = ok (some b)
  release_one chain b (node_work n) = ok (some b)
  release_one chain b (return_error_work t) = ok (some b)
  release_one chain b (reply_error_work t) = ok (some b)

  unfoldable pub binder_release_work : ℕ → ℕ → Binder → WorkList → Run (Option Binder)
  unfolding binder_dequeue_work_head release_one
  binder_release_work chain zero b l = ok none
  binder_release_work chain (suc fuel) b l =
      let head = binder_dequeue_work_head b l in
      elim head.1 [
        | none ↦ ok (some head.0)
        | some w ↦ release_one chain head.0 w >>=? λ b'. binder_release_work chain fuel b' l
      ]

  -- The failed reply for the transaction that the thread was to reply to.
  abbrev pub fail_reply : ℕ → Binder → Option ℕ → Run (Option Binder)
  fail_reply chain b none = ok (some b)
  fail_reply chain b (some t) = binder_send_failed_reply rb chain b t br_dead_reply

  -- `binder_thread_release`, with the number of its active transactions. `fuel` bounds each loop.
  unfoldable pub binder_thread_release : ℕ → Binder → ℕ → ℕ → Run (Option (Binder × ℕ))
  unfolding release_stack binder_send_failed_reply binder_release_work binder_thread_dec_tmpref
  binder_thread_release fuel b p th =
      let stack = (b.threads th).transaction_stack in
      let buried = bury_thread rb b p th in
      done (send_reply buried th stack) >>=? λ reply.
      release_stack fuel buried th stack 0 >>=? λ cut.
      fail_reply fuel (free_poll cut.0 th) reply >>=? λ failed.
      binder_release_work fuel fuel failed (thread_todo th) >>=? λ emptied.
      binder_thread_dec_tmpref rb emptied th >>=? λ b'. ok (some (b', cut.1))

  -- `binder_node_release` on a node with a temporary reference, and the count of references so far.
  unfoldable pub binder_node_release : ℕ → Binder → ℕ → ℕ → Run (Option (Binder × ℕ))
  unfolding binder_release_work binder_dequeue_work notify_deaths binder_dec_node_tmpref
  binder_node_release fuel b n refs = binder_release_work fuel fuel b (async_todo n) >>=? λ emptied.
      with_node emptied n λ nd.
        let off = binder_dequeue_work emptied (node_work n) nd.work_entry in
        bug_on (nd.tmp_refs == 0)
        >> (if no_refs nd.refs && nd.tmp_refs == 1
            then ok (some (binder_free_node off n, refs))
            else done (
                notify_deaths
                  (record (set_node off n (record nd {
                    work_entry = none;
                    proc = none;
                    local_strong_refs = 0;
                    local_weak_refs = 0;
                  })) { dead_nodes = n ∷ off.dead_nodes })
                  nd.refs refs
                >>= λ told. binder_dec_node_tmpref rb told.0 n >>= λ b'. ok (b', told.1)))
