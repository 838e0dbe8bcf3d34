-- ===== src/Driver/Read/Streams.antt =====
-- The returns of a whole read are one stream within the buffer.
use headless_testing.Base.{
  ℕ, zero, suc, ◌+◌, ◌<◌, ◌≤◌, ◌^◌, ◌≡◌, Bool, true, false, Option, none, some, List, [], ◌∷◌, ◌++◌,
  arith, Bool-cases, inl, inr,
}
use headless_testing.Kernel.{Run, Within, within, faults, Within-chain, Within-split, Errno}
use headless_testing.RbTree.{RbLib}
use headless_testing.Driver.State.{Binder, Work, WorkList}
use headless_testing.Driver.Work.{binder_available_for_proc_work}
use headless_testing.Driver.Looper.{spawn_looper}
use headless_testing.Driver.Read.Returns.{
  ReadBuffer, Reading, noop, spawn_looper_return, Turn, continues, breaks, fails, with_driver,
  append_return,
}
use headless_testing.Driver.Read.Wait.{Sleep, Woken, awake, asleep, await_work}
use headless_testing.Driver.Read.{
  ReadResult, returned, failed, still_reading, next_list, take_work, lacks_room, with_spawn,
  finish_read, reads_on, read_taken, read_turn, after_turn, after_wait, read_idle, read_loop,
  read_from, empty_reading, binder_thread_read,
}
use headless_testing.Driver.Read.Fits.{laid_end, IsWithin, append_return-IsWithin}
use headless_testing.Driver.Read.Turns.{
  TurnWithin, continued, broke, failing, with_driver-IsWithin, read_work-Within,
}

-- With room for the largest return the next one fits.
has_room :
    (size ptr : ℕ) → size < 2 ^ 64 → ptr ≤ size → lacks_room size ptr ≡ false → ptr + 76 ≤ size
has_room size ptr lt le h = ground (arith, lt, le, h)

module _ (size consumed : ℕ) where
  -- What a read leaves in the buffer: the returns one after the other from `consumed` on, and
  -- perhaps BR_SPAWN_LOOPER over the first word.
  pub data ReadFits : ReadResult → Type 0 where
    whole : {r : Reading} → IsWithin size consumed r → ReadFits (returned r r.ptr)
    spawning :
        {r : Reading} {b : Binder}
        → IsWithin size consumed r
        → 4 ≤ size
        → ReadFits (
            returned
              (record r { driver = b; returns = r.returns ++ (0, spawn_looper_return) ∷ [] })
              r.ptr)
    unread : {r : Reading} {n : ℕ} {e : Errno} → IsWithin size consumed r → ReadFits (failed r n e)
    reading : {r : Reading} → IsWithin size consumed r → ReadFits (still_reading r)

  with_spawn-ReadFits :
      (u : ReadBuffer) (r : Reading) (x : Binder × Bool)
      → 4 ≤ size
      → IsWithin size consumed r
      → ReadFits (with_spawn u r x)
  with_spawn-ReadFits u r (b, false) h w = whole (with_driver-IsWithin size consumed r b w)
  with_spawn-ReadFits u r (b, true) h w = elim (Bool-cases (u.put_u32 0)) [
    | inl e ↦ rw e (spawning {b = b} w h)
    | inr e ↦ rw e (unread (with_driver-IsWithin size consumed r b w))
  ]

  module _ (rb : RbLib) (fuel : ℕ) (u : ReadBuffer) (p th : ℕ) (non_block : Bool) (least : 4 ≤ size)
      (below : size < 2 ^ 64) where
    finish_read-ReadFits :
        (r : Reading) → IsWithin size consumed r → ReadFits (finish_read u p th r)
    unfolding finish_read
    finish_read-ReadFits r w = with_spawn-ReadFits u r (spawn_looper r.driver p th) least w

    abbrev GoesWell : (Reading → Run (Option ReadResult)) → Type 0
    GoesWell next = (r : Reading) → IsWithin size consumed r → Within ReadFits (next r)

    read_taken-Within :
        (r : Reading) (x : Binder × Option Work)
        → IsWithin size consumed r
        → r.ptr + 76 ≤ size
        → Within (TurnWithin size consumed) (read_taken rb fuel u p th size non_block consumed r x)
    read_taken-Within r (b, none) w h = faults
    read_taken-Within r (b, some x) w h =
        read_work-Within size consumed rb fuel u p th (with_driver r b) x
          (with_driver-IsWithin size consumed r b w) h

    read_turn-Within :
        (r : Reading) (l : WorkList)
        → IsWithin size consumed r
        → Within (TurnWithin size consumed) (read_turn rb fuel u p th size non_block consumed r l)
    unfolding read_turn
    read_turn-Within r l w = elim (Bool-cases (lacks_room size r.ptr)) [
      | inl e ↦ rw e (within (broke w))
      | inr e ↦
          rw e
            (read_taken-Within r (take_work r.driver th l) w (has_room size r.ptr below w.fits e))
    ]

    after_turn-Within :
        (next : Reading → Run (Option ReadResult)) (x : Turn)
        → GoesWell next
        → TurnWithin size consumed x
        → Within ReadFits (after_turn rb fuel u p th size non_block consumed next x)
    after_turn-Within next (continues r) k (continued w) = k r w
    after_turn-Within next (breaks r) k (broke w) = within (finish_read-ReadFits r w)
    after_turn-Within next (fails r e) k (failing w) = within (unread w)

    after_wait-Within :
        (next : Reading → List Sleep → Run (Option ReadResult)) (r : Reading) (x : Woken)
        → ((ss : List Sleep) → GoesWell (λ r'. next r' ss))
        → IsWithin size consumed r
        → Within ReadFits (after_wait rb fuel u p th size non_block consumed next r x)
    after_wait-Within next r (awake b none ss) k w =
        k ss (with_driver r b) (with_driver-IsWithin size consumed r b w)
    after_wait-Within next r (awake b (some e) ss) k w =
        within (unread (with_driver-IsWithin size consumed r b w))
    after_wait-Within next r (asleep b) k w =
        within (reading (with_driver-IsWithin size consumed r b w))

    read_idle-Within :
        (next : Reading → List Sleep → Run (Option ReadResult)) (for_proc : Bool) (r : Reading)
        (ss : List Sleep)
        → ((ss' : List Sleep) → GoesWell (λ r'. next r' ss'))
        → IsWithin size consumed r
        → Within ReadFits (read_idle rb fuel u p th size non_block consumed next for_proc r ss)
    unfolding read_idle
    read_idle-Within next for_proc r ss k w = elim (Bool-cases (reads_on r th)) [
      | inl e ↦ rw e (after_wait-Within next r (await_work r.driver p th for_proc non_block ss) k w)
      | inr e ↦ rw e (within (finish_read-ReadFits r w))
    ]

    read_loop-Within :
        (turns : ℕ) (for_proc : Bool) (ss : List Sleep)
        → GoesWell (λ r. read_loop rb fuel u p th size non_block consumed turns for_proc r ss)
    unfolding read_loop
    read_loop-Within zero for_proc ss r w = within (reading w)
    read_loop-Within (suc turns) for_proc ss r w =
        let retry = binder_available_for_proc_work (r.driver.threads th) in
        Within-split (next_list r.driver p th for_proc)
          (read_idle-Within (read_loop rb fuel u p th size non_block consumed turns retry) retry r
            ss (λ ss'. read_loop-Within turns retry ss') w)
          (λ l.
            Within-chain {A = Turn} _ (read_turn-Within r l w)
              (λ x g. after_turn-Within _ x (read_loop-Within turns for_proc ss) g))

    read_from-Within :
        (turns : ℕ) (r : Reading) (ss : List Sleep)
        → IsWithin size consumed r
        → Within ReadFits (read_from rb fuel u p th size non_block consumed turns r ss)
    unfolding read_from
    read_from-Within turns r ss w =
        let for_proc = binder_available_for_proc_work (r.driver.threads th) in
        after_wait-Within (read_loop rb fuel u p th size non_block consumed turns for_proc) r
          (await_work r.driver p th for_proc non_block ss) (read_loop-Within turns for_proc) w

module _ (rb : RbLib) (fuel : ℕ) (u : ReadBuffer) (p th size : ℕ) (non_block : Bool) where
  -- In a buffer of at least four bytes, of which `consumed` are in use, whatever work the thread
  -- finds, however often it sleeps, whatever is done meanwhile, and wherever the buffer faults: after
  -- any number of turns, and when the read returns, the whole returns that were put stand one after
  -- the other from `consumed` on, without a gap, within the buffer, and what is reported as consumed
  -- is where they end; only BR_SPAWN_LOOPER, if it is put, stands over the first word.
  pub binder_thread_read-ReadFits :
      (consumed turns : ℕ) (b : Binder) (ss : List Sleep)
      → 4 ≤ size
      → size < 2 ^ 64
      → consumed ≤ size
      → Within
          (ReadFits size consumed)
          (binder_thread_read rb fuel u p th size non_block consumed turns b ss)
  unfolding binder_thread_read
  binder_thread_read-ReadFits zero turns b ss least below h = elim (Bool-cases (u.put_u32 0)) [
    | inl e ↦ rw e (
        read_from-Within size 0 rb fuel u p th non_block least below turns
          (append_return (empty_reading b 0) b noop) ss
          (append_return-IsWithin size 0 (empty_reading b 0) b noop
            (record { in_order = laid_end; fits = h }) least))
    | inr e ↦ rw e (within (unread (record { in_order = laid_end; fits = h })))
  ]
  binder_thread_read-ReadFits (suc n) turns b ss least below h =
      read_from-Within size (suc n) rb fuel u p th non_block least below turns
        (empty_reading b (suc n)) ss (record { in_order = laid_end; fits = h })
