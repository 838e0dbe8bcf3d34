-- ===== src/Driver/Death/Sound.antt =====
-- The phases of a death notification in the heap, and what puts it on a list.
use headless_testing.Base.{
  ℕ, ◌≡◌, refl, ap, ◌∙◌, sym, subst, Bool, true, false, ◌||◌, Option, none, some, List, [], ◌∷◌,
  ◌++◌, if_both, arith,
}
use headless_testing.Driver.State.{
  Binder, BinderRefDeath, DeathWork, no_death_work, dead_binder, dead_binder_and_clear,
  clear_death_notification, death_work, WorkList, proc_todo, thread_todo, async_todo,
  delivered_death, write, set_thread, Work,
}
use headless_testing.Driver.Work.{
  binder_enqueue_work, binder_enqueue_thread_work, binder_wakeup_proc, binder_wakeup_thread,
  binder_wakeup_poll_threads, binder_select_thread, work_on,
}
use headless_testing.Driver.Heap.{write_self}
use headless_testing.Driver.Send.Frames.{has_work, has_work-last}
use headless_testing.Driver.Transaction.OneWay.{binder_wakeup_proc-todo}
use headless_testing.Driver.Death.{mark_death, death_to_proc, answer_clear}

abbrev pub is_delivered : WorkList → Bool
is_delivered (delivered_death p) = true
is_delivered (proc_todo p) = false
is_delivered (thread_todo t) = false
is_delivered (async_todo n) = false

-- The notification is a work of the list.
abbrev pub IsOn : Binder → ℕ → WorkList → Type 0
IsOn b d l = has_work (death_work d) (work_on b l) ≡ true

-- A notification by its phase; the Boolean says whether its reference still points to it. One that
-- is due, withdrawn or answered is among the works of the list that its entry names.
pub data Sound (b : Binder) (d : ℕ) : Bool → Option BinderRefDeath → Type 0 where
  not_due :
      {dn : BinderRefDeath} → dn.entry ≡ none → dn.kind ≡ no_death_work → Sound b d true (some dn)
  acknowledged :
      {dn : BinderRefDeath} → dn.entry ≡ none → dn.kind ≡ dead_binder → Sound b d true (some dn)
  due :
      {dn : BinderRefDeath} {l : WorkList}
      → dn.entry ≡ some l
      → IsOn b d l
      → dn.kind ≡ dead_binder
      → Sound b d true (some dn)
  withdrawn :
      {dn : BinderRefDeath} {l : WorkList}
      → dn.entry ≡ some l
      → IsOn b d l
      → dn.kind ≡ dead_binder_and_clear
      → Sound b d false (some dn)
  answered :
      {dn : BinderRefDeath} {l : WorkList}
      → dn.entry ≡ some l
      → IsOn b d l
      → is_delivered l ≡ false
      → dn.kind ≡ clear_death_notification
      → Sound b d false (some dn)
  freed : Sound b d false none

-- The phase of the notification `d` in the heap.
abbrev pub IsSound : ℕ → Bool → Binder → Type 0
IsSound d k b = Sound b d k (b.deaths d)

binder_wakeup_thread-deaths :
    (b : Binder) (p : ℕ) (o : Option ℕ) (sync : Bool)
    → (binder_wakeup_thread b p o sync).deaths ≡ b.deaths
unfolding binder_wakeup_thread binder_wakeup_poll_threads
binder_wakeup_thread-deaths b p none sync = refl
binder_wakeup_thread-deaths b p (some th) sync = refl

pub binder_wakeup_proc-deaths : (b : Binder) (p : ℕ) → (binder_wakeup_proc b p).deaths ≡ b.deaths
unfolding binder_wakeup_proc binder_select_thread
binder_wakeup_proc-deaths b p =
    let chosen = binder_select_thread b p in binder_wakeup_thread-deaths chosen.0 p chosen.1 false

-- What is last on a list is on it.
IsOn-last :
    (b : Binder) (d : ℕ) (l : WorkList) (ws : List Work)
    → work_on b l ≡ ws ++ death_work d ∷ []
    → IsOn b d l
IsOn-last b d l ws e =
    subst (λ vs. has_work (death_work d) vs ≡ true) (sym e)
      (has_work-last (death_work d) ws (ground arith))

-- A notification that is queued on a list of its process.
pub IsOn-proc :
    (b : Binder) (p d : ℕ)
    → IsOn
        (binder_wakeup_proc (binder_enqueue_work b (death_work d) (proc_todo p)) p)
        d
        (proc_todo p)
unfolding binder_enqueue_work
IsOn-proc b p d =
    let queued = binder_enqueue_work b (death_work d) (proc_todo p) in
    let pr = record (b.procs p) { todo = (b.procs p).todo ++ death_work d ∷ [] } in
    IsOn-last (binder_wakeup_proc queued p) d (proc_todo p) (b.procs p).todo
      (binder_wakeup_proc-todo queued p ∙ ap (λ x. x.todo) (write_self p pr b.procs))

IsOn-thread :
    (b : Binder) (th d : ℕ)
    → IsOn (binder_enqueue_thread_work b th (death_work d)) d (thread_todo th)
unfolding binder_enqueue_thread_work binder_enqueue_work
IsOn-thread b th d =
    let t = record (b.threads th) { todo = (b.threads th).todo ++ death_work d ∷ [] } in
    let queued = set_thread b th t in
    IsOn-last (binder_enqueue_thread_work b th (death_work d)) d (thread_todo th)
      (b.threads th).todo
      (ap (λ x. x.todo)
          (write_self th (record (queued.threads th) { process_todo = true }) queued.threads)
        ∙ ap (λ x. x.todo) (write_self th t b.threads))

pub IsOn-delivered :
    (b : Binder) (p d : ℕ)
    → IsOn (binder_enqueue_work b (death_work d) (delivered_death p)) d (delivered_death p)
unfolding binder_enqueue_work
IsOn-delivered b p d =
    let pr = record (b.procs p) {
      delivered_death = (b.procs p).delivered_death ++ death_work d ∷ [];
    } in
    IsOn-last (binder_enqueue_work b (death_work d) (delivered_death p)) d (delivered_death p)
      (b.procs p).delivered_death (ap (λ x. x.delivered_death) (write_self p pr b.procs))

-- What is written is what is read.
pub Sound-write :
    (b : Binder) (k : Bool) (d : ℕ) (o : Option BinderRefDeath) (h : ℕ → Option BinderRefDeath)
    → b.deaths ≡ write d o h
    → Sound b d k o
    → IsSound d k b
Sound-write b k d o h e s = subst (Sound b d k) (sym (ap (λ f. f d) e ∙ write_self d o h)) s

-- A notification that was marked and queued for its process.
pub death_to_proc-IsSound :
    (b : Binder) (p d : ℕ) (dn : BinderRefDeath) (kind : DeathWork) (k : Bool)
    → (IsOn (death_to_proc b p d dn kind) d (proc_todo p)
        → Sound
            (death_to_proc b p d dn kind)
            d
            k
            (some (record dn { kind = kind; entry = some (proc_todo p) })))
    → IsSound d k (death_to_proc b p d dn kind)
unfolding death_to_proc binder_enqueue_work
death_to_proc-IsSound b p d dn kind k s =
    let marked = mark_death b d dn kind (proc_todo p) in
    Sound-write (death_to_proc b p d dn kind) k d
      (some (record dn { kind = kind; entry = some (proc_todo p) })) b.deaths
      (binder_wakeup_proc-deaths (binder_enqueue_work marked (death_work d) (proc_todo p)) p)
      (s (IsOn-proc marked p d))

pub answer_clear-IsSound :
    (b : Binder) (p th d : ℕ) (dn : BinderRefDeath) → IsSound d false (answer_clear b p th d dn)
unfolding answer_clear binder_enqueue_thread_work binder_enqueue_work
answer_clear-IsSound b p th d dn =
    let l = (b.threads th).looper in
    let marked = mark_death b d dn clear_death_notification (thread_todo th) in
    let queued = binder_enqueue_thread_work marked th (death_work d) in
    if_both (IsSound d false) (l.registered || l.entered) {x = queued}
      {y = death_to_proc b p d dn clear_death_notification}
      (Sound-write queued false d
        (some (record dn { kind = clear_death_notification; entry = some (thread_todo th) }))
        b.deaths refl (answered refl (IsOn-thread marked th d) refl refl))
      (death_to_proc-IsSound b p d dn clear_death_notification false
        (λ on. answered refl on refl refl))

-- Writing references and notifications leaves the lists.
pub work_on-same :
    (b b' : Binder) (l : WorkList)
    → b'.procs ≡ b.procs
    → b'.threads ≡ b.threads
    → b'.async ≡ b.async
    → work_on b' l ≡ work_on b l
work_on-same b b' (proc_todo p) e f g = ap (λ h. (h p).todo) e
work_on-same b b' (thread_todo t) e f g = ap (λ h. (h t).todo) f
work_on-same b b' (async_todo n) e f g = ap (λ h. h n) g
work_on-same b b' (delivered_death p) e f g = ap (λ h. (h p).delivered_death) e
