-- ===== src/Driver/Read/Wait.antt =====
-- `binder_wait_for_work`: how a thread sleeps until there is work for it.
use headless_testing.Base.{
  ℕ, Bool, true, false, Option, none, some, List, [], ◌∷◌, if◌then◌else◌, erase,
}
use headless_testing.Kernel.{Errno}
use headless_testing.Priority.{binder_restore_priority}
use headless_testing.Driver.State.{Binder, set_proc}
use headless_testing.Driver.Work.{binder_has_work}
use headless_testing.Driver.Looper.{set_looper}

-- One sleep: what others do to the driver meanwhile, and whether a signal ends it.
pub record Sleep : Type 0 where
  pub meanwhile : Binder → Binder
  pub signal_pending : Bool

-- Whether the thread is on its process's list of waiting threads.
abbrev pub add_waiting : Binder → ℕ → Binder
add_waiting b th =
    let p = (b.threads th).proc in
    set_proc b p (record (b.procs p) { waiting_threads = th ∷ (b.procs p).waiting_threads })

abbrev pub drop_waiting : Binder → ℕ → Binder
drop_waiting b th =
    let p = (b.threads th).proc in
    set_proc b p (record (b.procs p) { waiting_threads = erase th (b.procs p).waiting_threads })

-- How the wait ends: with the thread awake, and the error if it has one, and the sleeps that are
-- left; or not yet.
pub data Woken : Type 0 where
  awake : Binder → Option Errno → List Sleep → Woken
  asleep : Binder → Woken

unfoldable pub binder_wait_for_work : Binder → ℕ → Bool → List Sleep → Woken
unfolding binder_has_work
binder_wait_for_work b th do_proc_work [] =
    if binder_has_work b th do_proc_work
    then awake b none []
    else asleep (if do_proc_work then add_waiting b th else b)
binder_wait_for_work b th do_proc_work (s ∷ ss) =
    let off = drop_waiting (s.meanwhile (if do_proc_work then add_waiting b th else b)) th in
    let rest = binder_wait_for_work off th do_proc_work ss in
    if binder_has_work b th do_proc_work
    then awake b none (s ∷ ss)
    else if s.signal_pending
    then awake off (some Errno.erestartsys) ss
    else rest

abbrev pub set_waiting : Binder → ℕ → Bool → Binder
set_waiting b th waiting = set_looper b th (record (b.threads th).looper { waiting = waiting })

abbrev pub waited : ℕ → Woken → Woken
waited th (awake b e ss) = awake (set_waiting b th false) e ss
waited th (asleep b) = asleep b

-- A thread that serves its process works at the process's priority.
abbrev pub serve_process : Binder → ℕ → ℕ → Bool → Binder
serve_process b p th false = b
serve_process b p th true = record b {
  sched = (th, binder_restore_priority (b.threads th).task (b.procs p).default_priority) ∷ b.sched;
}

abbrev pub poll_work : Binder → ℕ → Bool → List Sleep → Woken
poll_work b th do_proc_work ss =
    awake b (if binder_has_work b th do_proc_work then none else some Errno.eagain) ss

-- From `retry` on, up to the loop.
unfoldable pub await_work : Binder → ℕ → ℕ → Bool → Bool → List Sleep → Woken
unfolding binder_wait_for_work binder_has_work
await_work b p th for_proc non_block ss =
    let ready = serve_process (set_waiting b th true) p th for_proc in
    waited th (
      if non_block
      then poll_work ready th for_proc ss
      else binder_wait_for_work ready th for_proc ss)
