-- ===== src/Driver/Looper.antt =====
-- The threads that serve a process: how they register, and when user space is asked for another.
pub mod Tests
pub mod Bounded
use headless_testing.Base.{
  ℕ, ◌+◌, ◌%◌, ◌^◌, Bool, true, false, not, ◌&&◌, ◌||◌, List, [], ◌∷◌, ◌==◌, ltb, if◌then◌else◌,
  inc32, dec32,
}
use headless_testing.Driver.State.{Binder, BinderThread, BinderProc, Looper, set_proc, set_thread}

abbrev pub set_looper : Binder → ℕ → Looper → Binder
set_looper b th l = set_thread b th (record (b.threads th) { looper = l })

-- BC_REGISTER_LOOPER: the thread that user space was asked for.
unfoldable pub bc_register_looper : Binder → ℕ → ℕ → Binder
bc_register_looper b p th =
    let l = record (b.threads th).looper { registered = true } in
    let pr = b.procs p in
    if l.entered || pr.requested_threads == 0
    then set_looper b th (record l { invalid = true })
    else set_proc (set_looper b th l) p (record pr {
      requested_threads = dec32 pr.requested_threads;
      requested_threads_started = inc32 pr.requested_threads_started;
    })

-- BC_ENTER_LOOPER: a thread of user space's own.
unfoldable pub bc_enter_looper : Binder → ℕ → Binder
bc_enter_looper b th =
    let l = (b.threads th).looper in
    set_looper b th (record l { entered = true; invalid = l.invalid || l.registered })

unfoldable pub bc_exit_looper : Binder → ℕ → Binder
bc_exit_looper b th = set_looper b th (record (b.threads th).looper { exited = true })

abbrev pub no_waiting : List ℕ → Bool
no_waiting [] = true
no_waiting (t ∷ ts) = false

-- `<` on `int`s.
abbrev pub slt32 : ℕ → ℕ → Bool
slt32 x y = ltb ((x + 2 ^ 31) % 2 ^ 32) ((y + 2 ^ 31) % 2 ^ 32)

-- The end of `binder_thread_read`: is BR_SPAWN_LOOPER returned?
unfoldable pub spawn_looper : Binder → ℕ → ℕ → Binder × Bool
spawn_looper b p th =
    let pr = b.procs p in
    let l = (b.threads th).looper in
    if pr.requested_threads == 0
      && no_waiting (b.procs (b.threads th).proc).waiting_threads
      && slt32 pr.requested_threads_started pr.max_threads
      && (l.registered || l.entered)
    then (set_proc b p (record pr { requested_threads = inc32 pr.requested_threads }), true)
    else (b, false)

-- The ioctl BINDER_SET_MAX_THREADS.
unfoldable pub set_max_threads : Binder → ℕ → ℕ → Binder
set_max_threads b p max_threads = set_proc b p (record (b.procs p) { max_threads = max_threads })
