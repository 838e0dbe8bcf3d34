-- ===== src/Driver/Looper/Tests.antt =====
-- Thread 1 asks for another thread, and thread 2 comes.
use headless_testing.Base.{refl, arith, if◌then◌else◌, ◌==◌}
use headless_testing.Driver.State.{Binder}
use headless_testing.Driver.Create.{fresh_thread}
use headless_testing.Driver.Tests.{driver, a_thread, a_task}
use headless_testing.Driver.Looper.{spawn_looper, bc_register_looper}
use headless_testing.Driver.Looper.Bounded.{
  IsBounded, none_yet, then_step, reads, registers, LooperSteps-IsBounded,
}

abbrev two_threads : Binder
two_threads = record driver { threads = λ t. if t == 2 then fresh_thread 0 2 a_task else a_thread }

abbrev asked : Binder
asked = (spawn_looper two_threads 0 1).0

abbrev came : Binder
came = bc_register_looper asked 0 2

LooperSteps-IsBounded_example : IsBounded 15 (came.procs 0)
LooperSteps-IsBounded_example =
    LooperSteps-IsBounded 15 0 two_threads came (omega arith) refl refl (omega arith)
      (then_step {b = asked} (then_step {b = two_threads} none_yet (reads 1)) (registers 2))
