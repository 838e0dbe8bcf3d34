-- ===== src/Driver/Ioctl/Tests.antt =====
-- Process 0 becomes the manager of a context without one, and then another user is refused.
use headless_testing.Base.{ℕ, ◌≡◌, refl, Option, none, some}
use headless_testing.Kernel.{Run, ok, bug, Always, Errno}
use headless_testing.RbTree.{search_tree, link}
use headless_testing.RbTree.Plain.{plain}
use headless_testing.Driver.State.{Binder}
use headless_testing.Driver.Tests.{driver, a_proc}
use headless_testing.Driver.Ioctl.{Contexts, ManagerKernel, binder_ioctl_set_ctx_mgr}
use headless_testing.Driver.Ioctl.Uids.{Settled, binder_ioctl_set_ctx_mgr-Settled}

abbrev unmanaged : Binder
unmanaged = record driver { procs = λ p. a_proc; context_mgr = λ c. none }

abbrev by_user : ℕ → ManagerKernel
by_user uid = record { security = none; kzalloc = some 20; curr_euid = uid }

abbrev no_users : ℕ → Option ℕ
no_users c = none

binder_ioctl_set_ctx_mgr-Settled_example :
    Always
      (Settled (by_user 1000) unmanaged no_users a_proc.context)
      (binder_ioctl_set_ctx_mgr plain (by_user 1000) (unmanaged, no_users) 0 none)
binder_ioctl_set_ctx_mgr-Settled_example =
    binder_ioctl_set_ctx_mgr-Settled plain (by_user 1000) unmanaged no_users 0 none

abbrev manager_of : Run (Contexts × Option Errno) → Option ℕ
manager_of (ok ((b, uids), e)) = b.context_mgr a_proc.context
manager_of bug = none

abbrev answer_of : Run (Contexts × Option Errno) → Option Errno
answer_of (ok (x, e)) = e
answer_of bug = none

becomes_manager :
    manager_of (binder_ioctl_set_ctx_mgr plain (by_user 1000) (unmanaged, no_users) 0 none)
    ≡ some 20
unfolding binder_ioctl_set_ctx_mgr search_tree link
becomes_manager = refl

other_user :
    answer_of (binder_ioctl_set_ctx_mgr plain (by_user 1000) (unmanaged, λ c. some 0) 0 none)
    ≡ some Errno.eperm
unfolding binder_ioctl_set_ctx_mgr
other_user = refl
