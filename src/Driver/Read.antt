-- ===== src/Driver/Read.antt =====
-- `binder_thread_read`: what a thread is told, and how it waits for work.
pub mod Tests
pub mod Returns
pub mod Wait
pub mod Fits
pub mod Turns
pub mod Streams
use headless_testing.Base.{
  ℕ, zero, suc, ◌+◌, ◌^◌, Bool, true, false, not, ◌&&◌, Option, none, some, List, [], ◌∷◌, ◌++◌,
  ◌==◌, ltb, if◌then◌else◌, sub64,
}
use headless_testing.Kernel.{Run, ok, bug, ◌>>=?◌, Errno}
use headless_testing.RbTree.{RbLib}
use headless_testing.Driver.State.{Binder, Work, WorkList, thread_todo, proc_todo, set_thread}
use headless_testing.Driver.Work.{
  binder_worklist_empty, binder_dequeue_work_head, binder_available_for_proc_work,
}
use headless_testing.Driver.Looper.{spawn_looper}
use headless_testing.Driver.Read.Returns.{
  ReadBuffer, Reading, Return, noop, spawn_looper_return, Turn, continues, breaks, fails,
  with_driver, append_return, read_work,
}
use headless_testing.Driver.Read.Wait.{Sleep, Woken, awake, asleep, await_work}

-- What the read ends with: `*consumed` is only written if there is no error, except that of the
-- last return. A thread may still be asleep, or in the midst of its turns.
pub data ReadResult : Type 0 where
  returned : Reading → ℕ → ReadResult
  failed : Reading → ℕ → Errno → ReadResult
  still_reading : Reading → ReadResult

-- The list that the next work is on.
unfoldable pub next_list : Binder → ℕ → ℕ → Bool → Option WorkList
next_list b p th for_proc =
    if not (binder_worklist_empty (b.threads th).todo)
    then some (thread_todo th)
    else if not (binder_worklist_empty (b.procs p).todo) && for_proc
    then some (proc_todo p)
    else none

abbrev pub no_deferred : Binder → ℕ → Binder
no_deferred b th =
    if binder_worklist_empty (b.threads th).todo
    then set_thread b th (record (b.threads th) { process_todo = false })
    else b

-- The first work of the list, taken off it.
unfoldable pub take_work : Binder → ℕ → WorkList → Binder × Option Work
unfolding binder_dequeue_work_head
take_work b th l = let taken = binder_dequeue_work_head b l in (no_deferred taken.0 th, taken.1)

-- `sizeof(tr) + 4`, against the room that is left, a difference of pointers that is compared as a
-- `size_t`.
abbrev pub lacks_room : ℕ → ℕ → Bool
lacks_room size ptr = ltb (sub64 size ptr) 76

-- BR_SPAWN_LOOPER is put over the first word.
abbrev pub with_spawn : ReadBuffer → Reading → Binder × Bool → ReadResult
with_spawn u r (b, false) = returned (with_driver r b) r.ptr
with_spawn u r (b, true) =
    if u.put_u32 0
    then returned (record r { driver = b; returns = r.returns ++ (0, spawn_looper_return) ∷ [] })
        r.ptr
    else failed (with_driver r b) r.ptr Errno.efault

-- From `done` on.
unfoldable pub finish_read : ReadBuffer → ℕ → ℕ → Reading → ReadResult
unfolding spawn_looper
finish_read u p th r = with_spawn u r (spawn_looper r.driver p th)

-- Was nothing put but BR_NOOP, and may the thread wait on?
abbrev pub reads_on : Reading → ℕ → Bool
reads_on r th = r.ptr == 4 && not (r.driver.threads th).looper_need_return

module _ (rb : RbLib) (fuel : ℕ) (u : ReadBuffer) (p th size : ℕ) (non_block : Bool)
    (consumed : ℕ) where
  abbrev pub read_taken : Reading → Binder × Option Work → Run (Option Turn)
  read_taken r (b, none) = bug
  read_taken r (b, some w) = read_work rb fuel u p th (with_driver r b) w

  -- One turn of the loop with work on a list.
  unfoldable pub read_turn : Reading → WorkList → Run (Option Turn)
  unfolding take_work read_work
  read_turn r l =
      if lacks_room size r.ptr then ok (some (breaks r)) else read_taken r (take_work r.driver th l)

  abbrev pub after_turn : (Reading → Run (Option ReadResult)) → Turn → Run (Option ReadResult)
  after_turn next (continues r) = next r
  after_turn next (breaks r) = ok (some (finish_read u p th r))
  after_turn next (fails r e) = ok (some (failed r consumed e))

  -- What a thread does that woke up.
  abbrev pub after_wait :
      (Reading → List Sleep → Run (Option ReadResult)) → Reading → Woken → Run (Option ReadResult)
  after_wait next r (awake b none ss) = next (with_driver r b) ss
  after_wait next r (awake b (some e) ss) = ok (some (failed (with_driver r b) consumed e))
  after_wait next r (asleep b) = ok (some (still_reading (with_driver r b)))

  -- Without work the thread waits, if it has nothing to say yet.
  unfoldable pub read_idle :
      (Reading → List Sleep → Run (Option ReadResult))
      → Bool
      → Reading
      → List Sleep
      → Run (Option ReadResult)
  unfolding finish_read await_work
  read_idle next for_proc r ss =
      if reads_on r th
      then after_wait next r (await_work r.driver p th for_proc non_block ss)
      else ok (some (finish_read u p th r))

  -- The loop, in which the thread may wait again, for a number of turns.
  unfoldable pub read_loop : ℕ → Bool → Reading → List Sleep → Run (Option ReadResult)
  unfolding next_list read_turn finish_read read_idle
  read_loop zero for_proc r ss = ok (some (still_reading r))
  read_loop (suc turns) for_proc r ss = elim (next_list r.driver p th for_proc) [
    | some l ↦ read_turn r l >>=? after_turn (λ r'. read_loop turns for_proc r' ss)
    | none ↦
        let retry = binder_available_for_proc_work (r.driver.threads th) in
        read_idle (read_loop turns retry) retry r ss
  ]

  unfoldable pub read_from : ℕ → Reading → List Sleep → Run (Option ReadResult)
  unfolding read_loop await_work
  read_from turns r ss =
      let for_proc = binder_available_for_proc_work (r.driver.threads th) in
      after_wait (read_loop turns for_proc) r (await_work r.driver p th for_proc non_block ss)

abbrev pub empty_reading : Binder → ℕ → Reading
empty_reading b consumed = record { driver = b; returns = []; ptr = consumed }

-- `binder_thread_read`
unfoldable pub binder_thread_read :
    RbLib
    → ℕ
    → ReadBuffer
    → ℕ
    → ℕ
    → ℕ
    → Bool
    → ℕ
    → ℕ
    → Binder
    → List Sleep
    → Run (Option ReadResult)
unfolding read_from
binder_thread_read rb fuel u p th size non_block zero turns b ss =
    if u.put_u32 0
    then read_from rb fuel u p th size non_block 0 turns (append_return (empty_reading b 0) b noop)
        ss
    else ok (some (failed (empty_reading b 0) 0 Errno.efault))
binder_thread_read rb fuel u p th size non_block (suc n) turns b ss =
    read_from rb fuel u p th size non_block (suc n) turns (empty_reading b (suc n)) ss
