-- ===== src/Driver/Write.antt =====
-- `binder_thread_write`: the commands of a thread, read from user space one after the other.
pub mod Tests
pub mod Protocol
pub mod Advances
pub mod Resumes
use headless_testing.Base.{
  ℕ, zero, suc, ◌+◌, Bool, true, false, not, ◌&&◌, Option, none, some, List, ◌==◌, ltb,
  if◌then◌else◌,
}
use headless_testing.Kernel.{Run, ok, bug, ◌>>=◌, ◌>>=?◌, done, Errno}
use headless_testing.RbTree.{RbLib}
use headless_testing.Objects.Files.{FdKernel}
use headless_testing.Driver.State.{Binder}
use headless_testing.Driver.FreeBuffer.{BufferMemory, bc_free_buffer}
use headless_testing.Driver.Counting.{bc_refs, bc_done}
use headless_testing.Driver.Death.{bc_request_death, bc_clear_death, bc_dead_binder_done}
use headless_testing.Driver.Looper.{bc_register_looper, bc_enter_looper, bc_exit_looper}
use headless_testing.Driver.Send.State.{TransactionData, SendKernel}
use headless_testing.Driver.Send.Request.{System, Request, update_files}
use headless_testing.Driver.Send.Failure.{is_ok}
use headless_testing.Driver.Send.Whole.{binder_transaction}
use headless_testing.Driver.Write.Protocol.{
  Command, decode, sizeof_transaction_data, sizeof_transaction_data_sg,
}

-- The buffer of commands, by the offset from its start: what `get_user` and `copy_from_user` answer,
-- none for a fault. It does not wrap around the address space.
pub record CommandBuffer : Type 0 where
  pub get_u32 : ℕ → Option ℕ
  pub get_u64 : ℕ → Option ℕ
  pub get_transaction : ℕ → Option TransactionData
  pub get_transaction_sg : ℕ → Option (TransactionData × ℕ)

-- What a command asks of the kernel: memory for a reference or a notification, the descriptors of the
-- process, and what its buffer holds or its transaction needs.
pub record CommandKernel : Type 0 where
  pub kzalloc_ref : Option ℕ
  pub kzalloc_death : Option ℕ
  pub files : FdKernel
  pub memory : BufferMemory
  pub send : SendKernel

-- After a command: the offset behind it, or the error that ends the writing.
pub data Outcome : Type 0 where
  goes_on : System → ℕ → Outcome
  ends : System → Errno → Outcome

abbrev pub with_value {ℓ} :
    {A : Type ℓ} → System → Option A → (A → Run (Option Outcome)) → Run (Option Outcome)
with_value s none k = ok (some (ends s Errno.efault))
with_value s (some v) k = k v

abbrev pub on_driver : System → ℕ → Run Binder → Run (Option Outcome)
on_driver s pos m = m >>= λ b. ok (some (goes_on (b, s.1) pos))

abbrev pub refs_outcome : System → ℕ → Binder × Option Errno → Outcome
refs_outcome s pos (b, none) = goes_on (b, s.1) pos
refs_outcome s pos (b, some e) = ends (b, s.1) e

module _ (rb : RbLib) (fuel : ℕ) (u : CommandBuffer) (p th : ℕ) where
  -- BC_INCREFS, BC_ACQUIRE, BC_RELEASE and BC_DECREFS.
  unfoldable pub write_refs : CommandKernel → System → ℕ → Bool → Bool → Run (Option Outcome)
  unfolding bc_refs
  write_refs k s pos increment strong = with_value s (u.get_u32 pos) λ target.
      bc_refs rb s.0 p target increment strong k.kzalloc_ref >>= λ r.
      ok (some (refs_outcome s (pos + 4) r))

  -- BC_INCREFS_DONE and BC_ACQUIRE_DONE.
  unfoldable pub write_done : System → ℕ → Bool → Run (Option Outcome)
  unfolding bc_done
  write_done s pos acquire = with_value s (u.get_u64 pos) λ node_ptr.
      with_value s (u.get_u64 (pos + 8))
        λ cookie. on_driver s (pos + 16) (bc_done rb s.0 p node_ptr cookie acquire)

  unfoldable pub write_free_buffer : CommandKernel → System → ℕ → Run (Option Outcome)
  unfolding bc_free_buffer
  write_free_buffer k (b, files) pos =
      with_value (b, files) (u.get_u64 pos)
        λ data_ptr. bc_free_buffer rb k.files k.memory (b, files p) p data_ptr >>= λ r.
          ok (elim (update_files p files r) [ none ↦ none | some s ↦ some (goes_on s (pos + 8)) ])

  abbrev pub send_request : TransactionData → Bool → ℕ → Request
  send_request tr reply extra_buffers_size = record {
    thread = th;
    tr = tr;
    reply = reply;
    extra_buffers_size = extra_buffers_size;
  }

  -- BC_TRANSACTION and BC_REPLY.
  unfoldable pub write_transaction : CommandKernel → System → ℕ → Bool → Run (Option Outcome)
  unfolding binder_transaction
  write_transaction k s pos reply = with_value s (u.get_transaction pos) λ tr.
      binder_transaction rb k.send fuel s (send_request tr reply 0) >>=? λ s'.
      ok (some (goes_on s' (pos + sizeof_transaction_data)))

  -- BC_TRANSACTION_SG and BC_REPLY_SG.
  unfoldable pub write_transaction_sg : CommandKernel → System → ℕ → Bool → Run (Option Outcome)
  unfolding binder_transaction
  write_transaction_sg k s pos reply = with_value s (u.get_transaction_sg pos) λ r.
      binder_transaction rb k.send fuel s (send_request r.0 reply r.1) >>=? λ s'.
      ok (some (goes_on s' (pos + sizeof_transaction_data_sg)))

  -- BC_REQUEST_DEATH_NOTIFICATION and BC_CLEAR_DEATH_NOTIFICATION.
  unfoldable pub write_death : CommandKernel → System → ℕ → Bool → Run (Option Outcome)
  unfolding bc_request_death bc_clear_death
  write_death k s pos request = with_value s (u.get_u32 pos) λ target.
      with_value s (u.get_u64 (pos + 4)) λ cookie. on_driver s (pos + 12) (
        if request
        then bc_request_death s.0 p th target cookie k.kzalloc_death
        else bc_clear_death s.0 p th target cookie)

  unfoldable pub write_dead_binder_done : System → ℕ → Run (Option Outcome)
  unfolding bc_dead_binder_done
  write_dead_binder_done s pos =
      with_value s (u.get_u64 pos)
        λ cookie. on_driver s (pos + 8) (bc_dead_binder_done s.0 p th cookie)

  -- The command `cmd`, whose arguments begin at `pos`.
  unfoldable pub write_command : CommandKernel → System → ℕ → Command → Run (Option Outcome)
  unfolding write_refs write_done write_free_buffer write_transaction write_transaction_sg
      write_death write_dead_binder_done bc_register_looper bc_enter_looper bc_exit_looper
  write_command k s pos Command.bc_increfs = write_refs k s pos true false
  write_command k s pos Command.bc_acquire = write_refs k s pos true true
  write_command k s pos Command.bc_release = write_refs k s pos false true
  write_command k s pos Command.bc_decrefs = write_refs k s pos false false
  write_command k s pos Command.bc_increfs_done = write_done s pos false
  write_command k s pos Command.bc_acquire_done = write_done s pos true
  write_command k s pos Command.bc_attempt_acquire = ok (some (ends s Errno.einval))
  write_command k s pos Command.bc_acquire_result = ok (some (ends s Errno.einval))
  write_command k s pos Command.bc_free_buffer = write_free_buffer k s pos
  write_command k s pos Command.bc_transaction = write_transaction k s pos false
  write_command k s pos Command.bc_reply = write_transaction k s pos true
  write_command k s pos Command.bc_transaction_sg = write_transaction_sg k s pos false
  write_command k s pos Command.bc_reply_sg = write_transaction_sg k s pos true
  write_command k s pos Command.bc_register_looper =
      ok (some (goes_on (bc_register_looper s.0 p th, s.1) pos))
  write_command k s pos Command.bc_enter_looper =
      ok (some (goes_on (bc_enter_looper s.0 th, s.1) pos))
  write_command k s pos Command.bc_exit_looper =
      ok (some (goes_on (bc_exit_looper s.0 th, s.1) pos))
  write_command k s pos Command.bc_request_death_notification = write_death k s pos true
  write_command k s pos Command.bc_clear_death_notification = write_death k s pos false
  write_command k s pos Command.bc_dead_binder_done = write_dead_binder_done s pos

  -- One turn of the loop: the command at `pos`.
  unfoldable pub write_at : CommandKernel → System → ℕ → Run (Option Outcome)
  unfolding decode write_command
  write_at k s pos = with_value s (u.get_u32 pos) λ cmd. elim (decode cmd) [
    | none ↦ ok (some (ends s Errno.einval))
    | some c ↦ write_command k s (pos + 4) c
  ]

-- What was consumed, and the error.
pub record Written : Type 0 where
  pub system : System
  pub consumed : ℕ
  pub error : Option Errno

-- Does the loop go on: is there input left, and no error for the thread to read first?
abbrev pub wants_more : ℕ → ℕ → System → ℕ → Bool
wants_more th size s pos = ltb pos size && is_ok (s.0.threads th).return_error

-- With an error the command at `pos` was not consumed.
abbrev pub after_command : (System → ℕ → Run (Option Written)) → ℕ → Outcome → Run (Option Written)
after_command next pos (goes_on s' pos') = next s' pos'
after_command next pos (ends s' e) =
    ok (some (record { system = s'; consumed = pos; error = some e }))

-- The loop; the kernel answers each command by the offset where it stands. The first fuel is for the
-- turns, the second for each transaction.
unfoldable pub write_loop :
    RbLib
    → ℕ
    → ℕ
    → CommandBuffer
    → (ℕ → CommandKernel)
    → ℕ
    → ℕ
    → ℕ
    → System
    → ℕ
    → Run (Option Written)
unfolding write_at
write_loop rb zero fuel u k p th size s pos = ok none
write_loop rb (suc turns) fuel u k p th size s pos =
    let next = λ (s' : System) (pos' : ℕ). write_loop rb turns fuel u k p th size s' pos' in
    if wants_more th size s pos
    then (write_at rb fuel u p th (k pos) s pos >>=? after_command next pos)
    else ok (some (record { system = s; consumed = pos; error = none }))

-- `binder_thread_write` from an offset on. A command has at least four bytes.
unfoldable pub binder_thread_write :
    RbLib → ℕ → CommandBuffer → (ℕ → CommandKernel) → ℕ → ℕ → ℕ → System → ℕ → Run (Option Written)
unfolding write_loop
binder_thread_write rb fuel u k p th size s consumed =
    write_loop rb (suc size) fuel u k p th size s consumed
