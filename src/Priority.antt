-- ===== src/Priority.antt =====
-- binder.c: scheduling priorities that transactions lend to the threads that serve them.
pub mod Tests
pub mod Caps
pub mod Node
use headless_testing.Base.{
  ℕ, ◌+◌, ◌%◌, ◌/◌, ◌^◌, Bool, true, false, not, ◌&&◌, ◌||◌, List, [], ◌∷◌, ◌==◌, ltb,
  if◌then◌else◌,
}
use headless_testing.Base.Int.{ℤ, pos, negsuc, ◌+ℤ◌, ◌-ℤ◌, ltb_ℤ, eqb_ℤ}

abbrev pub sched_normal : ℕ
sched_normal = 0

abbrev pub sched_fifo : ℕ
sched_fifo = 1

abbrev pub sched_rr : ℕ
sched_rr = 2

abbrev pub sched_batch : ℕ
sched_batch = 3

-- `MIN_NICE`, `MAX_NICE`, `MAX_USER_RT_PRIO` and `NICE_TO_PRIO` of linux/sched/prio.h.
abbrev pub min_nice_value : ℤ
min_nice_value = negsuc 19

abbrev pub max_nice_value : ℤ
max_nice_value = pos 19

abbrev pub max_user_rt_prio : ℤ
max_user_rt_prio = pos 100

abbrev pub nice_to_prio : ℤ → ℤ
nice_to_prio nice = nice +ℤ pos 120

abbrev pub prio_to_nice : ℤ → ℤ
prio_to_nice prio = prio -ℤ pos 120

-- `struct binder_priority`
pub record BinderPriority : Type 0 where
  pub sched_policy : ℕ
  pub prio : ℤ

unfoldable pub is_rt_policy : ℕ → Bool
is_rt_policy policy = policy == sched_fifo || policy == sched_rr

unfoldable pub is_fair_policy : ℕ → Bool
is_fair_policy policy = policy == sched_normal || policy == sched_batch

unfoldable pub binder_supported_policy : ℕ → Bool
unfolding is_fair_policy is_rt_policy
binder_supported_policy policy = is_fair_policy policy || is_rt_policy policy

unfoldable pub to_userspace_prio : ℕ → ℤ → ℤ
unfolding is_fair_policy
to_userspace_prio policy kernel_priority =
    if is_fair_policy policy
    then prio_to_nice kernel_priority
    else max_user_rt_prio -ℤ pos 1 -ℤ kernel_priority

unfoldable pub to_kernel_prio : ℕ → ℤ → ℤ
unfolding is_fair_policy
to_kernel_prio policy user_priority =
    if is_fair_policy policy
    then nice_to_prio user_priority
    else max_user_rt_prio -ℤ pos 1 -ℤ user_priority

-- What the driver reads of a task, and what the kernel answers about it: the policy, the priority,
-- CAP_SYS_NICE, RLIMIT_RTPRIO, and the nice value that RLIMIT_NICE stands for.
pub record Task : Type 0 where
  pub policy : ℕ
  pub normal_prio : ℤ
  pub has_cap_nice : Bool
  pub max_rtprio : ℤ
  pub min_nice : ℤ

-- The calls that change a task's scheduling; the first always adds SCHED_RESET_ON_FORK.
pub data SchedCall : Type 0 where
  sched_setscheduler_nocheck : ℕ → ℤ → SchedCall
  set_user_nice : ℤ → SchedCall

-- A policy with a user-space priority.
pub record UserPriority : Type 0 where
  pub policy : ℕ
  pub priority : ℤ

abbrev pub is_zero : ℤ → Bool
is_zero z = eqb_ℤ z (pos 0)

-- A real-time wish is held to RLIMIT_RTPRIO.
unfoldable pub cap_rt : Task → Bool → UserPriority → UserPriority
unfolding is_rt_policy
cap_rt task verify u =
    if verify && is_rt_policy u.policy && not task.has_cap_nice
    then if is_zero task.max_rtprio
      then record { policy = sched_normal; priority = min_nice_value }
      else if ltb_ℤ task.max_rtprio u.priority
      then record u { priority = task.max_rtprio }
      else u
    else u

-- A fair wish is held to RLIMIT_NICE.
unfoldable pub cap_nice : Task → UserPriority → UserPriority
cap_nice task u =
    if ltb_ℤ u.priority task.min_nice then record u { priority = task.min_nice } else u

-- Is the fair wish checked at all, and is RLIMIT_NICE unset?
abbrev pub checks_nice : Task → Bool → UserPriority → Bool
checks_nice task verify u = verify && is_fair_policy u.policy && not task.has_cap_nice

unfoldable pub apply_priority : Task → UserPriority → List SchedCall
apply_priority task u =
    let nice = if is_fair_policy u.policy then set_user_nice u.priority ∷ [] else [] in
    if not (task.policy == u.policy) || is_rt_policy u.policy
    then (sched_setscheduler_nocheck u.policy (if is_rt_policy u.policy then u.priority else pos 0)
        ∷ nice)
    else nice

-- The wish, in user-space terms.
abbrev pub wish_of : BinderPriority → UserPriority
wish_of desired = record {
  policy = desired.sched_policy;
  priority = to_userspace_prio desired.sched_policy desired.prio;
}

-- `binder_do_set_priority`: the calls that it makes.
unfoldable pub binder_do_set_priority : Task → BinderPriority → Bool → List SchedCall
binder_do_set_priority task desired verify =
    let capped = cap_rt task verify (wish_of desired) in
    if task.policy == desired.sched_policy && eqb_ℤ task.normal_prio desired.prio
    then []
    else if checks_nice task verify capped
    then (if ltb_ℤ max_nice_value task.min_nice
        then []
        else apply_priority task (cap_nice task capped))
    else apply_priority task capped

abbrev pub binder_set_priority : Task → BinderPriority → List SchedCall
binder_set_priority task desired = binder_do_set_priority task desired true

abbrev pub binder_restore_priority : Task → BinderPriority → List SchedCall
binder_restore_priority task desired = binder_do_set_priority task desired false

-- The priority fields of `struct binder_transaction`.
pub record TransactionPriority : Type 0 where
  pub priority : BinderPriority
  pub saved_priority : BinderPriority
  pub set_priority_called : Bool

-- The priority that a transaction asks for on a node.
unfoldable pub desired_priority : BinderPriority → BinderPriority → Bool → BinderPriority
unfolding is_rt_policy
desired_priority asked node_prio inherit_rt =
    if ltb_ℤ node_prio.prio asked.prio
      || (eqb_ℤ node_prio.prio asked.prio && node_prio.sched_policy == sched_fifo)
    then node_prio
    else if not inherit_rt && is_rt_policy asked.sched_policy
    then record { prio = nice_to_prio (pos 0); sched_policy = sched_normal }
    else asked

-- `binder_transaction_priority`
unfoldable pub binder_transaction_priority :
    Task → TransactionPriority → BinderPriority → Bool → TransactionPriority × List SchedCall
unfolding desired_priority binder_do_set_priority
binder_transaction_priority task t node_prio inherit_rt =
    if t.set_priority_called then (t, []) else (
      record t {
        set_priority_called = true;
        saved_priority = record { sched_policy = task.policy; prio = task.normal_prio };
      },
      binder_set_priority task (desired_priority t.priority node_prio inherit_rt),
    )
