-- ===== src/Driver/Death.antt =====
-- Death notifications: asked for, withdrawn, delivered and acknowledged.
pub mod Tests
pub mod Sound
pub mod Phases
use headless_testing.Base.{
  ℕ, Bool, true, false, not, ◌&&◌, ◌||◌, Option, none, some, List, [], ◌∷◌, ◌==◌, if◌then◌else◌,
  is_some,
}
use headless_testing.Kernel.{Run, ok, bug, ◌>>=◌, ◌>>◌, bug_on}
use headless_testing.Driver.State.{
  Binder, BinderRef, BinderRefDeath, DeathWork, no_death_work, dead_binder, dead_binder_and_clear,
  clear_death_notification, Work, death_work, transaction_work, transaction_complete, node_work,
  return_error_work, reply_error_work, WorkList, proc_todo, thread_todo, delivered_death, br_error,
  write, set_thread, set_ref, set_death, with_ref, with_node, with_death,
}
use headless_testing.Driver.Work.{
  binder_enqueue_work, binder_enqueue_thread_work, binder_wakeup_proc,
}
use headless_testing.Driver.Ref.{binder_get_ref, dequeue_death, free_death}

-- The notification is on a list as work of the given kind.
abbrev pub mark_death : Binder → ℕ → BinderRefDeath → DeathWork → WorkList → Binder
mark_death b d dn kind l = set_death b d (record dn { kind = kind; entry = some l })

-- Queue the notification for the process.
unfoldable pub death_to_proc : Binder → ℕ → ℕ → BinderRefDeath → DeathWork → Binder
unfolding binder_enqueue_work binder_wakeup_proc
death_to_proc b p d dn kind =
    binder_wakeup_proc
      (binder_enqueue_work (mark_death b d dn kind (proc_todo p)) (death_work d) (proc_todo p)) p

-- The answer to a withdrawal goes to the thread if it serves the process, and to the process if not.
unfoldable pub answer_clear : Binder → ℕ → ℕ → ℕ → BinderRefDeath → Binder
unfolding death_to_proc binder_enqueue_thread_work
answer_clear b p th d dn =
    let l = (b.threads th).looper in
    if l.registered || l.entered
    then binder_enqueue_thread_work (mark_death b d dn clear_death_notification (thread_todo th)) th
        (death_work d)
    else death_to_proc b p d dn clear_death_notification

-- The thread learns that there was no memory.
abbrev pub fail_thread : Binder → ℕ → Binder
fail_thread b th =
    binder_enqueue_thread_work (set_thread b th (record (b.threads th) { return_error = br_error }))
      th (return_error_work th)

-- The notification `d` of reference `r`: it is due at once if the node's process is dead.
unfoldable pub set_request : Binder → ℕ → ℕ → BinderRef → ℕ → ℕ → Run Binder
unfolding death_to_proc
set_request b p r rf d cookie = elim rf.node [
  | none ↦ bug
  | some n ↦ with_node b n λ nd.
      let dn : BinderRefDeath = record { cookie = cookie; kind = no_death_work; entry = none } in
      let asked = set_death (set_ref b r (record rf { death = some d })) d dn in
      ok (if is_some nd.proc then asked else death_to_proc asked p d dn dead_binder)
]

-- BC_REQUEST_DEATH_NOTIFICATION, where `kzalloc` answers with memory or none.
unfoldable pub bc_request_death : Binder → ℕ → ℕ → ℕ → ℕ → Option ℕ → Run Binder
unfolding binder_get_ref set_request binder_enqueue_thread_work
bc_request_death b p th target cookie none = ok (fail_thread b th)
bc_request_death b p th target cookie (some d) = do
  found ← binder_get_ref b p target false
  elim found [
    | none ↦ ok b
    | some r ↦
        with_ref b r λ rf. elim rf.death [ none ↦ set_request b p r rf d cookie | some old ↦ ok b ]
  ]

abbrev pub is_dead_binder : DeathWork → Bool
is_dead_binder dead_binder = true
is_dead_binder _ = false

-- The notification `d` with the right cookie is withdrawn from reference `r`.
unfoldable pub withdraw : Binder → ℕ → ℕ → ℕ → BinderRef → ℕ → BinderRefDeath → Run Binder
unfolding answer_clear
withdraw b p th r rf d dn =
    let off = set_ref b r (record rf { death = none }) in
    elim dn.entry [
      | none ↦ ok (answer_clear off p th d dn)
      | some l ↦ do
        bug_on (not (is_dead_binder dn.kind))
        ok (set_death off d (record dn { kind = dead_binder_and_clear }))
    ]

-- BC_CLEAR_DEATH_NOTIFICATION
unfoldable pub bc_clear_death : Binder → ℕ → ℕ → ℕ → ℕ → Run Binder
unfolding binder_get_ref withdraw
bc_clear_death b p th target cookie = do
  found ← binder_get_ref b p target false
  elim found [
    | none ↦ ok b
    | some r ↦ with_ref b r λ rf. elim rf.death [
      | none ↦ ok b
      | some d ↦
          with_death b d λ dn. if dn.cookie == cookie then withdraw b p th r rf d dn else ok b
    ]
  ]

-- The first delivered notification with a cookie.
unfoldable pub find_delivered : Binder → ℕ → List Work → Run (Option ℕ)
find_delivered b cookie [] = ok none
find_delivered b cookie (death_work d ∷ ws) =
    let rest = find_delivered b cookie ws in
    with_death b d λ dn. if dn.cookie == cookie then ok (some d) else rest
find_delivered b cookie (w ∷ ws) = bug

-- The delivered notification `d` is acknowledged.
unfoldable pub acknowledge : Binder → ℕ → ℕ → ℕ → Run Binder
unfolding dequeue_death answer_clear
acknowledge b p th d =
    let off = dequeue_death b d in
    with_death off d λ dn. elim dn.kind [
      | dead_binder_and_clear ↦ ok (answer_clear off p th d dn)
      | no_death_work ↦ ok off
      | dead_binder ↦ ok off
      | clear_death_notification ↦ ok off
    ]

-- BC_DEAD_BINDER_DONE
unfoldable pub bc_dead_binder_done : Binder → ℕ → ℕ → ℕ → Run Binder
unfolding find_delivered acknowledge
bc_dead_binder_done b p th cookie = do
  found ← find_delivered b cookie (b.procs p).delivered_death
  elim found [ none ↦ ok b | some d ↦ acknowledge b p th d ]

-- What a thread reads for a notification.
pub data DeathReturn : Type 0 where
  br_dead_binder br_clear_death_notification_done : ℕ → DeathReturn

-- The part of `binder_thread_read` for the notification `d`, which is off its list.
unfoldable pub read_death : Binder → ℕ → ℕ → Run (Binder × DeathReturn)
unfolding binder_enqueue_work
read_death b p d = with_death b d λ dn.
    let l = delivered_death p in
    let delivered =
      binder_enqueue_work (set_death b d (record dn { entry = some l })) (death_work d) l in
    elim dn.kind [
      | clear_death_notification ↦
          ok (free_death b (some d), br_clear_death_notification_done dn.cookie)
      | no_death_work ↦ ok (delivered, br_dead_binder dn.cookie)
      | dead_binder ↦ ok (delivered, br_dead_binder dn.cookie)
      | dead_binder_and_clear ↦ ok (delivered, br_dead_binder dn.cookie)
    ]
