-- ===== src/Driver/Ioctl/Exchange.antt =====
-- `binder_ioctl_write_read`: commands are written, and returns read, in one call.
use headless_testing.Base.{ℕ, Bool, not, Option, none, some, List, ◌==◌, if◌then◌else◌}
use headless_testing.Kernel.{Run, ok, ◌>>=?◌, Errno}
use headless_testing.RbTree.{RbLib}
use headless_testing.Driver.State.{Binder}
use headless_testing.Driver.Work.{binder_worklist_empty, binder_wakeup_proc}
use headless_testing.Driver.Send.Request.{System}
use headless_testing.Driver.Write.{CommandBuffer, CommandKernel, Written, binder_thread_write}
use headless_testing.Driver.Read.Returns.{ReadBuffer}
use headless_testing.Driver.Read.Wait.{Sleep}
use headless_testing.Driver.Read.{ReadResult, returned, failed, still_reading, binder_thread_read}

-- `struct binder_write_read`, less the addresses of the two buffers.
pub record WriteRead : Type 0 where
  pub write_size : ℕ
  pub write_consumed : ℕ
  pub read_size : ℕ
  pub read_consumed : ℕ

-- The two buffers, what the kernel answers for the commands, the fuel and the turns, the sleeps of the
-- thread, and whether the structure can be copied back.
pub record ExchangeKernel : Type 0 where
  pub commands : CommandBuffer
  pub kernel : ℕ → CommandKernel
  pub returns : ReadBuffer
  pub fuel : ℕ
  pub turns : ℕ
  pub non_block : Bool
  pub sleeps : List Sleep
  pub copy_to_user : Bool

-- The structure as it is copied back, or none, and what the call returns; or the thread still reads.
pub data Exchanged : Type 0 where
  exchanged : System → Option WriteRead → Option Errno → Exchanged
  reading_on : System → Exchanged

-- With an error, or when both are done, the structure is copied back.
abbrev pub copy_back : ExchangeKernel → System → WriteRead → Option Errno → Exchanged
copy_back k s bwr e =
    if k.copy_to_user then exchanged s (some bwr) e else exchanged s none (some Errno.efault)

-- Work that is left for the process is for another thread.
abbrev pub pass_on : Binder → ℕ → Binder
pass_on b p = if not (binder_worklist_empty (b.procs p).todo) then binder_wakeup_proc b p else b

abbrev pub after_read : ExchangeKernel → ℕ → (ℕ → List ℕ) → WriteRead → ReadResult → Exchanged
after_read k p files bwr (returned r n) =
    copy_back k (pass_on r.driver p, files) (record bwr { read_consumed = n }) none
after_read k p files bwr (failed r n e) =
    copy_back k (pass_on r.driver p, files) (record bwr { read_consumed = n }) (some e)
after_read k p files bwr (still_reading r) = reading_on (r.driver, files)

module _ (rb : RbLib) (k : ExchangeKernel) (p th : ℕ) where
  unfoldable pub read_part : System → WriteRead → Run (Option Exchanged)
  unfolding binder_thread_read binder_wakeup_proc
  read_part s bwr =
      if bwr.read_size == 0
      then ok (some (copy_back k s bwr none))
      else (binder_thread_read rb k.fuel k.returns p th bwr.read_size k.non_block bwr.read_consumed
            k.turns s.0 k.sleeps
          >>=? λ r. ok (some (after_read k p s.1 bwr r)))

  -- After an error of the commands nothing is read.
  unfoldable pub after_write : WriteRead → Written → Run (Option Exchanged)
  unfolding read_part
  after_write bwr w = elim w.error [
    | none ↦ read_part w.system (record bwr { write_consumed = w.consumed })
    | some e ↦ ok (
        some (
          copy_back k w.system (record bwr { write_consumed = w.consumed; read_consumed = 0 })
            (some e)))
  ]

  unfoldable pub write_part : System → WriteRead → Run (Option Exchanged)
  unfolding binder_thread_write after_write read_part
  write_part s bwr =
      if bwr.write_size == 0
      then read_part s bwr
      else (binder_thread_write rb k.fuel k.commands k.kernel p th bwr.write_size s
            bwr.write_consumed
          >>=? after_write bwr)

  -- With the size that the ioctl's number says, and the structure from user space or none.
  unfoldable pub binder_ioctl_write_read : ℕ → Option WriteRead → System → Run (Option Exchanged)
  unfolding write_part
  binder_ioctl_write_read size bwr s =
      if not (size == 48) then ok (some (exchanged s none (some Errno.einval))) else elim bwr [
        | none ↦ ok (some (exchanged s none (some Errno.efault)))
        | some x ↦ write_part s x
      ]
