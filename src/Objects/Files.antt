-- ===== src/Objects/Files.antt =====
-- binder.c: file descriptors that move into the target process.
pub mod Atomic
use headless_testing.Base.{
  ℕ, Bool, true, false, not, Option, none, some, List, [], ◌∷◌, ◌++◌, if◌then◌else◌, erase,
}
use headless_testing.Kernel.{Errno}

-- What the kernel answers: has the target a file table and a signal handler, does it take
-- descriptors, is a descriptor of the sender open, may its file be passed, and which number
-- `__alloc_fd` reserves next to those that are open.
pub record FdKernel : Type 0 where
  pub has_files : Bool
  pub lock_task_sighand : Bool
  pub target_allows_fd : Bool
  pub fget : ℕ → Bool
  pub may_transfer : ℕ → Bool
  pub alloc_fd : List ℕ → Option ℕ

pub data FdResult : Type 0 where
  target_fd : ℕ → FdResult
  fd_error : Errno → FdResult

-- `task_get_unused_fd_flags`; the caller takes every error alike.
unfoldable pub task_get_unused_fd_flags : FdKernel → List ℕ → Option ℕ
task_get_unused_fd_flags k open_fds =
    if not k.has_files then none else if not k.lock_task_sighand then none else k.alloc_fd open_fds

-- `task_fd_install`
abbrev pub task_fd_install : FdKernel → ℕ → List ℕ → List ℕ
task_fd_install k fd open_fds = if k.has_files then fd ∷ open_fds else open_fds

-- `task_close_fd`, whose result the callers ignore.
unfoldable pub task_close_fd : FdKernel → ℕ → List ℕ → List ℕ
task_close_fd k fd open_fds = if not k.has_files then open_fds else erase fd open_fds

-- With a number reserved, the file is installed; without one there is no room.
abbrev pub install_new : FdKernel → List ℕ → Option ℕ → List ℕ × FdResult
install_new k open_fds none = (open_fds, fd_error Errno.enomem)
install_new k open_fds (some new) = (task_fd_install k new open_fds, target_fd new)

-- `binder_translate_fd`: the open descriptors of the target, and the new one.
unfoldable pub binder_translate_fd : FdKernel → List ℕ → ℕ → List ℕ × FdResult
binder_translate_fd k open_fds fd =
    if not k.target_allows_fd
    then (open_fds, fd_error Errno.eperm)
    else if not (k.fget fd)
    then (open_fds, fd_error Errno.ebadf)
    else if not (k.may_transfer fd)
    then (open_fds, fd_error Errno.eperm)
    else install_new k open_fds (task_get_unused_fd_flags k open_fds)

-- The clean-up loop: close what was installed, in order.
unfoldable pub close_all : FdKernel → List ℕ → List ℕ → List ℕ
unfolding task_close_fd
close_all k [] open_fds = open_fds
close_all k (fd ∷ fds) open_fds = close_all k fds (task_close_fd k fd open_fds)

pub data FdArrayResult : Type 0 where
  all_translated : List ℕ → FdArrayResult
  array_error : Errno → FdArrayResult

-- The loop of `binder_translate_fd_array` over the descriptors that are left; `installed` is what
-- the array already holds of the target's.
unfoldable pub translate_fds : FdKernel → List ℕ → List ℕ → List ℕ → List ℕ × FdArrayResult
translate_fds k open_fds installed [] = (open_fds, all_translated installed)
translate_fds k open_fds installed (fd ∷ fds) =
    let one = binder_translate_fd k open_fds fd in
    elim one.1 [
      | target_fd new ↦ translate_fds k one.0 (installed ++ new ∷ []) fds
      | fd_error e ↦ (close_all k installed one.0, array_error e)
    ]
