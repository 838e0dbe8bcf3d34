-- ===== src/Driver/Transaction.antt =====
-- Transactions: the stacks of their threads, failed replies, and the queueing in the target.
pub mod Tests
pub mod OneWay
pub mod Order
pub mod Told
pub mod FailedReply
use headless_testing.Base.{
  ℕ, zero, suc, Bool, true, false, not, ◌&&◌, ◌||◌, Option, none, some, List, [], ◌∷◌, ◌++◌, ◌==◌,
  if◌then◌else◌, is_some, inc32,
}
use headless_testing.Kernel.{Run, ok, bug, ◌>>=◌, ◌>>◌, bug_on, ◌>>=?◌, done, Errno}
use headless_testing.RbTree.{RbLib}
use headless_testing.Alloc.State.{BinderAlloc, BinderBuffer, update}
use headless_testing.Priority.{binder_transaction_priority, TransactionPriority, BinderPriority}
use headless_testing.Driver.State.{
  Binder, BinderTransaction, BinderNode, BinderThread, BufferPtr, Reply, br_ok, br_error,
  br_dead_reply, br_failed_reply, br_transaction_complete, Work, transaction_work, reply_error_work,
  proc_todo, thread_todo, async_todo, Wake, wake_up, set_txn, set_node, set_thread, set_alloc,
  with_txn, with_node, with_buffer, write,
}
use headless_testing.Driver.Work.{
  binder_enqueue_work, binder_enqueue_thread_work, binder_select_thread, binder_wakeup_thread,
  binder_dequeue_work_head, binder_wakeup_proc,
}
use headless_testing.Driver.Node.{binder_inc_node, binder_inc_node_tmpref}
use headless_testing.Driver.Lifetime.{
  inc_proc, inc_thread, binder_proc_dec_tmpref, binder_thread_dec_tmpref,
}

-- Is the stack's top transaction `t`?
abbrev pub is_top : Option ℕ → ℕ → Bool
is_top none t = false
is_top (some s) t = s == t

-- `binder_pop_transaction_ilocked`
unfoldable pub binder_pop_transaction : Binder → ℕ → ℕ → Run Binder
binder_pop_transaction b th t = with_txn b t λ tx. do
  bug_on (not (is_top (b.threads th).transaction_stack t))
  bug_on (not (is_top tx.from th))
  ok (
      set_txn (set_thread b th (record (b.threads th) { transaction_stack = tx.from_parent })) t
        (record tx { from = none }))

-- The `transaction` of a buffer, written through a pointer that may be NULL.
abbrev pub set_buffer_txn : Binder → Option BufferPtr → Option ℕ → Binder
set_buffer_txn b none t = b
set_buffer_txn b (some bp) t =
    let a = b.allocs bp.owner in
    set_alloc b bp.owner
      (record a { buffers = update bp.addr (λ bf. record bf { transaction = t }) a.buffers })

-- `kfree(t)`
abbrev pub forget_txn : ℕ → Binder → Binder
forget_txn t b = record b { txns = write t none b.txns }

-- The error that a sender's thread is told, unless it has one to deliver.
unfoldable pub set_reply_error : Binder → ℕ → Reply → Binder
unfolding binder_enqueue_thread_work
set_reply_error b th code = elim (b.threads th).reply_error [
  | br_ok ↦
      let b' = set_thread b th (record (b.threads th) { reply_error = code }) in
      let queued = binder_enqueue_thread_work b' th (reply_error_work th) in
      record queued { wakes = queued.wakes ++ wake_up th ∷ [] }
  | br_error ↦ b
  | br_dead_reply ↦ b
  | br_failed_reply ↦ b
  | br_transaction_complete ↦ b
]

module _ (rb : RbLib) where
  unfoldable pub binder_free_transaction : Binder → ℕ → Run (Option Binder)
  unfolding binder_proc_dec_tmpref
  binder_free_transaction b t = with_txn b t λ tx. elim tx.to_proc [
    | none ↦ ok (some (forget_txn t b))
    | some p ↦ binder_proc_dec_tmpref rb (set_buffer_txn (inc_proc b p) tx.buffer none) p >>=? λ b'.
        ok (some (forget_txn t b'))
  ]

  -- The sender `th` of `t` is alive: it gets the error. `binder_get_txn_from_and_acq_inner` takes
  -- a reference on it meanwhile.
  unfoldable pub fail_sender : Binder → ℕ → ℕ → Reply → Run (Option Binder)
  unfolding binder_pop_transaction set_reply_error binder_thread_dec_tmpref binder_free_transaction
  fail_sender b t th code = done (binder_pop_transaction (inc_thread b th) th t) >>=? λ popped.
      binder_thread_dec_tmpref rb (set_reply_error popped th code) th >>=? λ b'.
      binder_free_transaction b' t

  -- The loop of `binder_send_failed_reply`, from `t` to the transaction in which it was made.
  unfoldable pub failed_reply_loop : ℕ → Binder → ℕ → Reply → Run (Option Binder)
  unfolding fail_sender
  failed_reply_loop zero b t code = ok none
  failed_reply_loop (suc fuel) b t code = with_txn b t λ tx. elim tx.from [
    | some th ↦ fail_sender b t th code
    | none ↦ binder_free_transaction b t >>=? λ b'. elim tx.from_parent [
      | none ↦ ok (some b')
      | some next ↦ failed_reply_loop fuel b' next code
    ]
  ]

  unfoldable pub binder_send_failed_reply : ℕ → Binder → ℕ → Reply → Run (Option Binder)
  unfolding failed_reply_loop
  binder_send_failed_reply fuel b t code =
      with_txn b t λ tx. bug_on tx.one_way >> failed_reply_loop fuel b t code

  unfoldable pub binder_cleanup_transaction : ℕ → Binder → ℕ → Reply → Run (Option Binder)
  unfolding binder_send_failed_reply
  binder_cleanup_transaction fuel b t code = with_txn b t λ tx. elim tx.buffer [
    | none ↦ bug
    | some bp ↦ with_buffer b bp λ bf.
        if is_some bf.target_node && not tx.one_way
        then binder_send_failed_reply fuel b t code
        else binder_free_transaction b t
  ]

-- The priority that a transaction lends to a thread on a node.
abbrev pub lend_priority : Binder → ℕ → BinderTransaction → ℕ → BinderNode → Binder
lend_priority b t tx th nd =
    let r =
      binder_transaction_priority (b.threads th).task tx.priority
        (record { sched_policy = nd.sched_policy; prio = nd.min_priority }) nd.inherit_rt in
    record (set_txn b t (record tx { priority = r.0 })) { sched = (th, r.1) ∷ b.sched }

-- Queue the transaction: for the thread, for the process, or behind the node's other one-way ones.
unfoldable pub queue_transaction :
    Binder → ℕ → BinderTransaction → ℕ → Option ℕ → ℕ → BinderNode → Bool → Binder
unfolding binder_transaction_priority binder_enqueue_thread_work binder_enqueue_work
queue_transaction b t tx p (some th) n nd pending =
    binder_enqueue_thread_work (lend_priority b t tx th nd) th (transaction_work t)
queue_transaction b t tx p none n nd pending =
    binder_enqueue_work b (transaction_work t) (if pending then async_todo n else proc_todo p)

-- The thread that is to serve it, if none is given and it need not wait.
unfoldable pub choose_thread : Binder → ℕ → Option ℕ → Bool → Binder × Option ℕ
unfolding binder_select_thread
choose_thread b p (some th) pending = (b, some th)
choose_thread b p none pending = if pending then (b, none) else binder_select_thread b p

abbrev pub thread_dead : Binder → Option ℕ → Bool
thread_dead b none = false
thread_dead b (some th) = (b.threads th).is_dead

-- `binder_proc_transaction` on the target node `n` of the buffer.
unfoldable pub send_to_node :
    Binder → ℕ → BinderTransaction → ℕ → Option ℕ → ℕ → BinderNode → Run (Binder × Bool)
unfolding queue_transaction choose_thread binder_wakeup_thread
send_to_node b t tx p thread n nd =
    let pending = tx.one_way && nd.has_async_transaction in
    let nd' = if tx.one_way then record nd { has_async_transaction = true } else nd in
    let b1 = set_node b n nd' in
    let chosen = choose_thread b1 p thread pending in
    let queued = queue_transaction chosen.0 t tx p chosen.1 n nd' pending in
    bug_on (tx.one_way && is_some thread)
    >> (if (b.procs p).is_dead || thread_dead b thread
        then ok (b1, false)
        else ok (
          if pending then queued else binder_wakeup_thread queued p chosen.1 (not tx.one_way),
          true,
        ))

-- `binder_proc_transaction`: was the transaction queued?
unfoldable pub binder_proc_transaction : Binder → ℕ → ℕ → Option ℕ → Run (Binder × Bool)
unfolding send_to_node
binder_proc_transaction b t p thread = with_txn b t λ tx. elim tx.buffer [
  | none ↦ bug
  | some bp ↦ with_buffer b bp λ bf. elim bf.target_node [
    | none ↦ bug
    | some n ↦ with_node b n λ nd. send_to_node b t tx p thread n nd
  ]
]

-- The references on the target node and its process for a transaction.
unfoldable pub binder_get_node_refs_for_txn : Binder → ℕ → Run (Binder × Option ℕ)
unfolding binder_inc_node binder_inc_node_tmpref
binder_get_node_refs_for_txn b n = with_node b n λ nd. elim nd.proc [
  | none ↦ ok (b, none)
  | some p ↦ do
    counted ← binder_inc_node b n true false none
    held ← binder_inc_node_tmpref counted.0 n
    ok (inc_proc held p, some p)
]

-- The one-way part of BC_FREE_BUFFER on the buffer's target node: the next one-way transaction of
-- the node may run, or none is on its way any more.
unfoldable pub next_one_way : Binder → ℕ → ℕ → Run Binder
unfolding binder_dequeue_work_head binder_enqueue_work binder_wakeup_proc
next_one_way b p n = with_node b n λ nd. do
  bug_on (not nd.has_async_transaction)
  bug_on (not (is_top nd.proc p))
  let head = binder_dequeue_work_head b (async_todo n)
  ok (elim head.1 [
    | none ↦ set_node b n (record nd { has_async_transaction = false })
    | some w ↦ binder_wakeup_proc (binder_enqueue_work head.0 w (proc_todo p)) p
  ])
