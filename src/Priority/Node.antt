-- ===== src/Priority/Node.antt =====
-- The priority that a transaction runs with on a node.
use headless_testing.Base.{ℕ, ◌≡◌, refl, ◌⊎◌, Bool, true, false, [], arith}
use headless_testing.Base.Int.{pos, negsuc, ◌≤ℤ◌}
use headless_testing.Priority.{
  Task, BinderPriority, is_rt_policy, desired_priority, TransactionPriority,
  binder_transaction_priority, binder_set_priority, cap_rt, UserPriority,
}

desired_floor :
    (asked node_prio : BinderPriority) (inherit_rt : Bool)
    → (inherit_rt ≡ true) ⊎ (is_rt_policy asked.sched_policy ≡ false)
    → (desired_priority asked node_prio inherit_rt).prio ≤ℤ node_prio.prio
unfolding desired_priority
desired_floor asked node_prio inherit_rt h = ground arith

-- Where the node inherits real-time policies, or the caller has none, the first call for a
-- transaction asks binder_set_priority for the node's minimum priority or above: the kernel priority
-- that is asked for, where less is more urgent, is not greater. The task's limits may still lower
-- what it gets.
pub binder_transaction_priority_floor :
    (task : Task) (t : TransactionPriority) (node_prio : BinderPriority) (inherit_rt : Bool)
    → t.set_priority_called ≡ false
    → (inherit_rt ≡ true) ⊎ (is_rt_policy t.priority.sched_policy ≡ false)
    → (desired : BinderPriority) × (desired.prio ≤ℤ node_prio.prio)
      × ((binder_transaction_priority task t node_prio inherit_rt).1
          ≡ binder_set_priority task desired)
unfolding binder_transaction_priority
binder_transaction_priority_floor task t node_prio inherit_rt first h = (
  desired_priority t.priority node_prio inherit_rt,
  desired_floor t.priority node_prio inherit_rt h,
  rw first refl,
)

-- The first call saves the task's own policy and priority, and no later call for the same
-- transaction, on whatever task and node, changes that or the scheduling.
pub binder_transaction_priority_once :
    (task : Task) (t : TransactionPriority) (node_prio : BinderPriority) (inherit_rt : Bool)
    (task' : Task) (node_prio' : BinderPriority) (inherit_rt' : Bool)
    → t.set_priority_called ≡ false
    → let t' = (binder_transaction_priority task t node_prio inherit_rt).0 in
      (t'.saved_priority ≡ record { sched_policy = task.policy; prio = task.normal_prio })
      × (binder_transaction_priority task' t' node_prio' inherit_rt' ≡ (t', []))
unfolding binder_transaction_priority
binder_transaction_priority_once task t node_prio inherit_rt task' node_prio' inherit_rt' h =
    (rw h, rw h)

-- RLIM_INFINITY reads as -1 in the `long` that holds RLIMIT_RTPRIO: without CAP_SYS_NICE, any
-- real-time wish is then cut to priority -1.
pub cap_rt_unlimited :
    (task : Task) (u : UserPriority) (n : ℕ)
    → task.has_cap_nice ≡ false
    → task.max_rtprio ≡ negsuc 0
    → is_rt_policy u.policy ≡ true
    → u.priority ≡ pos n
    → (cap_rt task true u).priority ≡ negsuc 0
unfolding cap_rt
cap_rt_unlimited task u n c m rt e = ground arith
