-- ===== src/Priority/Caps.antt =====
-- What a lent priority can be.
use headless_testing.Base.{
  ℕ, ◌≡◌, true, false, List, [], ◌∷◌, arith, if_cases, if_both, if◌then◌else◌,
}
use headless_testing.Base.Int.{ℤ, pos, negsuc, ◌≤ℤ◌}
use headless_testing.Priority.{
  Task, BinderPriority, SchedCall, sched_setscheduler_nocheck, set_user_nice, is_rt_policy,
  is_fair_policy, to_kernel_prio, to_userspace_prio, binder_do_set_priority, binder_set_priority,
  UserPriority, cap_rt, cap_nice, apply_priority, wish_of, checks_nice,
}

-- Kernel and user-space priorities translate into one another, for every policy.
pub to_kernel_prio-to_userspace_prio :
    (policy : ℕ) (prio : ℤ)
    → (to_kernel_prio policy (to_userspace_prio policy prio) ≡ prio)
      × (to_userspace_prio policy (to_kernel_prio policy prio) ≡ prio)
unfolding to_kernel_prio to_userspace_prio
to_kernel_prio-to_userspace_prio policy (pos n) = (ground arith, ground arith)
to_kernel_prio-to_userspace_prio policy (negsuc n) = (ground arith, ground arith)

-- A call that an unprivileged task's limits allow.
abbrev pub IsAllowed : Task → SchedCall → Type 0
IsAllowed task (sched_setscheduler_nocheck policy priority) =
    is_rt_policy policy ≡ true → priority ≤ℤ task.max_rtprio
IsAllowed task (set_user_nice nice) = task.min_nice ≤ℤ nice

pub data Allowed (task : Task) : List SchedCall → Type 0 where
  nil : Allowed task []
  cons :
      {c : SchedCall} {cs : List SchedCall}
      → IsAllowed task c
      → Allowed task cs
      → Allowed task (c ∷ cs)

-- What `apply_priority` needs for its calls to be allowed.
pub record IsWithin (task : Task) (u : UserPriority) : Type 0 where
  pub rt : is_rt_policy u.policy ≡ true → u.priority ≤ℤ task.max_rtprio
  pub fair : is_fair_policy u.policy ≡ true → task.min_nice ≤ℤ u.priority

apply_priority-IsAllowed :
    (task : Task) (u : UserPriority) → IsWithin task u → Allowed task (apply_priority task u)
unfolding apply_priority
apply_priority-IsAllowed task u w =
    let nice =
      if_cases (Allowed task) (is_fair_policy u.policy) {x = set_user_nice u.priority ∷ []} {y = []}
        (λ f. cons (w.fair f) nil) (λ _. nil) in
    if_both (Allowed task) _ (cons rt_allowed nice) nice
  where
    rt_allowed :
        IsAllowed task (
          sched_setscheduler_nocheck u.policy (if is_rt_policy u.policy then u.priority else pos 0))
    rt_allowed h = rw h (w.rt h)

-- Held to both limits, a wish is within them.
cap-IsWithin :
    (task : Task) (u : UserPriority)
    → task.has_cap_nice ≡ false
    → is_fair_policy (cap_rt task true u).policy ≡ true
    → IsWithin task (cap_nice task (cap_rt task true u))
unfolding cap_nice is_fair_policy is_rt_policy
cap-IsWithin task u nocap f = record { rt = ground arith; fair = ground arith }

cap_rt-IsWithin :
    (task : Task) (u : UserPriority)
    → task.has_cap_nice ≡ false
    → is_fair_policy (cap_rt task true u).policy ≡ false
    → IsWithin task (cap_rt task true u)
unfolding cap_rt is_fair_policy is_rt_policy
cap_rt-IsWithin task u nocap f = record { rt = ground arith; fair = ground arith }

-- Without CAP_SYS_NICE, a lent priority makes only calls within the limits of the task that gets
-- it: real-time priorities up to RLIMIT_RTPRIO, nice values from the one of RLIMIT_NICE.
pub binder_set_priority-IsAllowed :
    (task : Task) (desired : BinderPriority)
    → task.has_cap_nice ≡ false
    → Allowed task (binder_set_priority task desired)
unfolding binder_do_set_priority
binder_set_priority-IsAllowed task desired nocap =
    let u = cap_rt task true (wish_of desired) in
    if_both (Allowed task) _ nil (
      if_cases (Allowed task) (checks_nice task true u)
        (λ c. if_both (Allowed task) _ nil (
          apply_priority-IsAllowed task _
            (cap-IsWithin task (wish_of desired) nocap (ground arith))))
        (λ c.
          apply_priority-IsAllowed task u
            (cap_rt-IsWithin task (wish_of desired) nocap (ground arith))))
