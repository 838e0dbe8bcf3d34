-- ===== src/Driver/Death/Tests.antt =====
-- Thread 1 withdraws the notification 9 of reference 11, which is due.
use headless_testing.Base.{refl, none, some, true, false, [], ◌∷◌, if◌then◌else◌, ◌==◌}
use headless_testing.Kernel.{Run, ok, bug}
use headless_testing.Driver.State.{
  Binder, BinderRef, BinderRefDeath, dead_binder, proc_todo, death_work, set_proc,
}
use headless_testing.RbTree.Plain.{plain}
use headless_testing.Driver.Tests.{driver, a_ref}
use headless_testing.Driver.Death.{withdraw}
use headless_testing.Driver.Death.Sound.{Sound, due}
use headless_testing.Driver.Death.Phases.{withdraws, DeathStep-Sound}

abbrev due_death : BinderRefDeath
due_death = record { cookie = 5; kind = dead_binder; entry = some (proc_todo 0) }

abbrev watching : BinderRef
watching = record (a_ref 1) { death = some 9 }

abbrev noticed : Binder
noticed = record (set_proc driver 0 (record (driver.procs 0) { todo = death_work 9 ∷ [] })) {
  deaths = λ d. if d == 9 then some due_death else none;
}

abbrev after_withdraw : Run Binder → Binder
after_withdraw bug = driver
after_withdraw (ok b) = b

abbrev withdrawn_death : Binder
withdrawn_death = after_withdraw (withdraw noticed 0 1 11 watching 9 due_death)

DeathStep-Sound_example : Sound withdrawn_death 9 false (withdrawn_death.deaths 9)
unfolding withdraw
DeathStep-Sound_example =
    DeathStep-Sound plain 9 true false noticed withdrawn_death (due {dn = due_death} refl refl refl)
      (withdraws {b = noticed} 0 1 11 watching due_death refl refl)
