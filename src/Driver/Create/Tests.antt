-- ===== src/Driver/Create/Tests.antt =====
-- The task with pid 50 comes to a process with one thread, of pid 100.
use headless_testing.Base.{arith, some}
use headless_testing.Kernel.{Gives}
use headless_testing.RbTree.{leaf, node}
use headless_testing.RbTree.Plain.{plain}
use headless_testing.Driver.State.{Binder}
use headless_testing.Driver.Tests.{driver, a_proc, a_task}
use headless_testing.Driver.Create.{binder_get_thread_ilocked}
use headless_testing.Driver.Create.Threads.{Gets, binder_get_thread_ilocked-Gets}

abbrev one_thread : Binder
one_thread = record driver { procs = λ p. record a_proc { threads = node leaf 1 leaf } }

binder_get_thread_ilocked-Gets_example :
    Gives (Gets one_thread 0 50 2) (binder_get_thread_ilocked plain one_thread 0 50 a_task (some 2))
binder_get_thread_ilocked-Gets_example =
    binder_get_thread_ilocked-Gets plain one_thread 0 50 a_task 2 (tt, tt) ((λ e. omega arith), tt)
