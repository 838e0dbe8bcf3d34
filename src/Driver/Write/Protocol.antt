-- ===== src/Driver/Write/Protocol.antt =====
-- uapi/linux/android/binder.h: the commands of user space, by their numbers on a 64-bit kernel.
use headless_testing.Base.{ℕ, ◌+◌, ◌*◌, ◌%◌, ◌^◌, Option, none, some, ◌==◌, if◌then◌else◌}

-- `enum binder_driver_command_protocol`
pub data Command : Type 0 where
  bc_transaction bc_reply bc_acquire_result bc_free_buffer : Command
  bc_increfs bc_acquire bc_release bc_decrefs : Command
  bc_increfs_done bc_acquire_done bc_attempt_acquire : Command
  bc_register_looper bc_enter_looper bc_exit_looper : Command
  bc_request_death_notification bc_clear_death_notification bc_dead_binder_done : Command
  bc_transaction_sg bc_reply_sg : Command

-- `_IO('c', nr)` and `_IOW('c', nr, type)`, where a type has a size.
abbrev pub io_c : ℕ → ℕ
io_c nr = b'c' * 2 ^ 8 + nr

abbrev pub iow_c : ℕ → ℕ → ℕ
iow_c nr size = 2 ^ 30 + size * 2 ^ 16 + io_c nr

-- The sizes of `struct binder_transaction_data`, with `buffers_size`, and of
-- `struct binder_ptr_cookie`, `binder_handle_cookie` and `binder_pri_desc`.
abbrev pub sizeof_transaction_data : ℕ
sizeof_transaction_data = 64

abbrev pub sizeof_transaction_data_sg : ℕ
sizeof_transaction_data_sg = 72

abbrev pub sizeof_ptr_cookie : ℕ
sizeof_ptr_cookie = 16

abbrev pub sizeof_handle_cookie : ℕ
sizeof_handle_cookie = 12

abbrev pub sizeof_pri_desc : ℕ
sizeof_pri_desc = 8

abbrev pub command_code : Command → ℕ
command_code Command.bc_transaction = iow_c 0 sizeof_transaction_data
command_code Command.bc_reply = iow_c 1 sizeof_transaction_data
command_code Command.bc_acquire_result = iow_c 2 4
command_code Command.bc_free_buffer = iow_c 3 8
command_code Command.bc_increfs = iow_c 4 4
command_code Command.bc_acquire = iow_c 5 4
command_code Command.bc_release = iow_c 6 4
command_code Command.bc_decrefs = iow_c 7 4
command_code Command.bc_increfs_done = iow_c 8 sizeof_ptr_cookie
command_code Command.bc_acquire_done = iow_c 9 sizeof_ptr_cookie
command_code Command.bc_attempt_acquire = iow_c 10 sizeof_pri_desc
command_code Command.bc_register_looper = io_c 11
command_code Command.bc_enter_looper = io_c 12
command_code Command.bc_exit_looper = io_c 13
command_code Command.bc_request_death_notification = iow_c 14 sizeof_handle_cookie
command_code Command.bc_clear_death_notification = iow_c 15 sizeof_handle_cookie
command_code Command.bc_dead_binder_done = iow_c 16 8
command_code Command.bc_transaction_sg = iow_c 17 sizeof_transaction_data_sg
command_code Command.bc_reply_sg = iow_c 18 sizeof_transaction_data_sg

-- The command with a given number. The last eight bits tell the commands apart.
abbrev command_nr : ℕ → Option Command
command_nr nr =
    if nr == 0
    then some Command.bc_transaction
    else if nr == 1
    then some Command.bc_reply
    else if nr == 2
    then some Command.bc_acquire_result
    else if nr == 3
    then some Command.bc_free_buffer
    else if nr == 4
    then some Command.bc_increfs
    else if nr == 5
    then some Command.bc_acquire
    else if nr == 6
    then some Command.bc_release
    else if nr == 7
    then some Command.bc_decrefs
    else if nr == 8
    then some Command.bc_increfs_done
    else if nr == 9
    then some Command.bc_acquire_done
    else if nr == 10
    then some Command.bc_attempt_acquire
    else if nr == 11
    then some Command.bc_register_looper
    else if nr == 12
    then some Command.bc_enter_looper
    else if nr == 13
    then some Command.bc_exit_looper
    else if nr == 14
    then some Command.bc_request_death_notification
    else if nr == 15
    then some Command.bc_clear_death_notification
    else if nr == 16
    then some Command.bc_dead_binder_done
    else if nr == 17
    then some Command.bc_transaction_sg
    else if nr == 18
    then some Command.bc_reply_sg
    else none

abbrev if_code : ℕ → Option Command → Option Command
if_code cmd none = none
if_code cmd (some c) = if command_code c == cmd then some c else none

-- The case of `switch (cmd)`; none is `default`.
unfoldable pub decode : ℕ → Option Command
decode cmd = if_code cmd (command_nr (cmd % 2 ^ 8))
