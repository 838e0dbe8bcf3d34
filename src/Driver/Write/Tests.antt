-- ===== src/Driver/Write/Tests.antt =====
-- A thread enters and leaves the looper, with two commands.
use headless_testing.Base.{ℕ, ◌≡◌, refl, Option, none, some, if◌then◌else◌, ◌==◌, arith}
use headless_testing.Kernel.{Run, ok, bug}
use headless_testing.RbTree.Plain.{plain}
use headless_testing.Driver.Tests.{driver}
use headless_testing.Driver.FreeBuffer.Tests.{kernel, memory}
use headless_testing.Driver.Send.Request.{System}
use headless_testing.Driver.Send.Tests.{answers, no_files}
use headless_testing.Driver.Write.Protocol.{Command, command_code, decode}
use headless_testing.Driver.Write.{CommandBuffer, CommandKernel, Written, binder_thread_write}
use headless_testing.Driver.Write.Resumes.{binder_thread_write-resumes}

-- The numbers of all commands are read back.
decode-command_code : (c : Command) → decode (command_code c) ≡ some c
unfolding decode
decode-command_code Command.bc_transaction = refl
decode-command_code Command.bc_reply = refl
decode-command_code Command.bc_acquire_result = refl
decode-command_code Command.bc_free_buffer = refl
decode-command_code Command.bc_increfs = refl
decode-command_code Command.bc_acquire = refl
decode-command_code Command.bc_release = refl
decode-command_code Command.bc_decrefs = refl
decode-command_code Command.bc_increfs_done = refl
decode-command_code Command.bc_acquire_done = refl
decode-command_code Command.bc_attempt_acquire = refl
decode-command_code Command.bc_register_looper = refl
decode-command_code Command.bc_enter_looper = refl
decode-command_code Command.bc_exit_looper = refl
decode-command_code Command.bc_request_death_notification = refl
decode-command_code Command.bc_clear_death_notification = refl
decode-command_code Command.bc_dead_binder_done = refl
decode-command_code Command.bc_transaction_sg = refl
decode-command_code Command.bc_reply_sg = refl

-- `BC_TRANSACTION` on a 64-bit kernel.
bc_transaction_code : command_code Command.bc_transaction ≡ 0x40406300
bc_transaction_code = refl

abbrev two_commands : CommandBuffer
two_commands = record {
  get_u32 = λ pos. some (
      if pos == 0
      then command_code Command.bc_enter_looper
      else command_code Command.bc_exit_looper);
  get_u64 = λ pos. none;
  get_transaction = λ pos. none;
  get_transaction_sg = λ pos. none;
}

abbrev pub plain_kernel : CommandKernel
plain_kernel = record {
  kzalloc_ref = none;
  kzalloc_death = none;
  files = kernel;
  memory = memory;
  send = answers;
}

abbrev one_go : ℕ → System → ℕ → Run (Option Written)
one_go size s pos = binder_thread_write plain 0 two_commands (λ o. plain_kernel) 0 5 size s pos

abbrev left_by : Run (Option Written) → Written
left_by bug = record { system = (driver, no_files); consumed = 0; error = none }
left_by (ok none) = record { system = (driver, no_files); consumed = 0; error = none }
left_by (ok (some w)) = w

abbrev after_first : Written
after_first = left_by (one_go 4 (driver, no_files) 0)

binder_thread_write-resumes_example :
    one_go 8 (driver, no_files) 0 ≡ one_go 8 after_first.system after_first.consumed
unfolding binder_thread_write
binder_thread_write-resumes_example =
    binder_thread_write-resumes plain 0 two_commands (λ o. plain_kernel) 0 5 4 8 (driver, no_files)
      0 after_first (omega arith) refl refl

both_done : (left_by (one_go 8 (driver, no_files) 0)).consumed ≡ 8
unfolding binder_thread_write
both_done = refl
