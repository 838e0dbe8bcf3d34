-- ===== src/Driver/Lifetime/Frees.antt =====
-- Dropping a temporary reference ends, and leaves transactions alone.
use headless_testing.Base.{ℕ, ◌≡◌, refl, arith, if_both, not, dec32}
use headless_testing.Kernel.{Ends, ended, Ends-bind, Ends-Finishes, Ends-bug_on, Ends-map}
use headless_testing.RbTree.{RbLib}
use headless_testing.Alloc.Mmap.Terminates.{binder_alloc_deferred_release-Finishes}
use headless_testing.Driver.State.{Binder, BinderThread, write}
use headless_testing.Driver.Work.{binder_worklist_empty}
use headless_testing.Driver.Lifetime.{
  binder_free_proc, binder_proc_dec_tmpref, binder_free_thread, binder_thread_dec_tmpref, dec_proc,
  dec_thread, proc_unused, thread_unused, release_fuel,
}

-- What the release of a process leaves as it was.
pub record LeavesThreads (b b' : Binder) : Type 0 where
  pub txns : b'.txns ≡ b.txns
  pub threads : b'.threads ≡ b.threads

abbrev pub lower_tmp_ref : BinderThread → BinderThread
lower_tmp_ref th = record th { tmp_ref = dec32 th.tmp_ref }

-- What the release of thread `t` leaves of it.
pub record LowersThread (t : ℕ) (b b' : Binder) : Type 0 where
  pub txns : b'.txns ≡ b.txns
  pub threads : b'.threads ≡ write t (lower_tmp_ref (b.threads t)) b.threads

module _ (rb : RbLib) where
  binder_free_proc-Ends : (b : Binder) (p : ℕ) → Ends (LeavesThreads b) (binder_free_proc rb b p)
  unfolding binder_free_proc
  binder_free_proc-Ends b p = Ends-bug_on (not (binder_worklist_empty (b.procs p).todo)) (
      Ends-bug_on (not (binder_worklist_empty (b.procs p).delivered_death)) (
        Ends-Finishes _
          (binder_alloc_deferred_release-Finishes rb (release_fuel b p) (b.allocs p) (omega arith))
          (λ r. ended (record { txns = refl; threads = refl }))))

  pub binder_proc_dec_tmpref-Ends :
      (b : Binder) (p : ℕ) → Ends (LeavesThreads b) (binder_proc_dec_tmpref rb b p)
  unfolding binder_proc_dec_tmpref
  binder_proc_dec_tmpref-Ends b p =
      let freed : Ends (LeavesThreads b) (binder_free_proc rb (dec_proc b p) p) =
        Ends-map (binder_free_proc-Ends (dec_proc b p) p)
          (λ b' k. record { txns = k.txns; threads = k.threads }) in
      if_both (Ends (LeavesThreads b)) (proc_unused ((dec_proc b p).procs p)) freed
        (ended (record { txns = refl; threads = refl }))

  pub binder_thread_dec_tmpref-Ends :
      (b : Binder) (t : ℕ) → Ends (LowersThread t b) (binder_thread_dec_tmpref rb b t)
  unfolding binder_thread_dec_tmpref binder_free_thread
  binder_thread_dec_tmpref-Ends b t =
      let b1 = dec_thread b t in
      let freed : Ends (LowersThread t b) (binder_free_thread rb b1 t) =
        Ends-bug_on (not (binder_worklist_empty (b1.threads t).todo)) (
          Ends-bind (binder_proc_dec_tmpref-Ends b1 (b1.threads t).proc)
            (λ b' k. ended (record { txns = k.txns; threads = k.threads }))) in
      if_both (Ends (LowersThread t b)) (thread_unused (b1.threads t)) freed
        (ended (record { txns = refl; threads = refl }))
