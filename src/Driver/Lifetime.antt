-- ===== src/Driver/Lifetime.antt =====
-- The temporary references that keep threads and processes alive, and what frees them.
pub mod Frees
use headless_testing.Base.{
  ℕ, suc, ◌^◌, Bool, true, false, not, ◌&&◌, Option, none, some, List, [], ◌∷◌, ◌==◌, if◌then◌else◌,
  inc32, dec32, length,
}
use headless_testing.Kernel.{Run, ok, bug, ◌>>=◌, ◌>>◌, bug_on, ◌>>=?◌}
use headless_testing.RbTree.{RbLib, rb_empty_root, in_order}
use headless_testing.Alloc.Mmap.{binder_alloc_deferred_release, Released}
use headless_testing.Driver.State.{
  Binder, BinderProc, BinderThread, set_proc, set_thread, set_alloc,
}
use headless_testing.Driver.Work.{binder_worklist_empty}

-- `atomic_inc(&proc->tmp_ref)`
abbrev pub inc_proc : Binder → ℕ → Binder
inc_proc b p = set_proc b p (record (b.procs p) { tmp_ref = inc32 (b.procs p).tmp_ref })

-- `atomic_inc(&thread->tmp_ref)`
abbrev pub inc_thread : Binder → ℕ → Binder
inc_thread b t = set_thread b t (record (b.threads t) { tmp_ref = inc32 (b.threads t).tmp_ref })

abbrev pub dec_proc : Binder → ℕ → Binder
dec_proc b p = set_proc b p (record (b.procs p) { tmp_ref = dec32 (b.procs p).tmp_ref })

abbrev pub dec_thread : Binder → ℕ → Binder
dec_thread b t = set_thread b t (record (b.threads t) { tmp_ref = dec32 (b.threads t).tmp_ref })

-- Is this the last use of a dead process, or of a dead thread?
abbrev pub proc_unused : BinderProc → Bool
proc_unused pr = pr.is_dead && rb_empty_root pr.threads && pr.tmp_ref == 0

abbrev pub thread_unused : BinderThread → Bool
thread_unused th = th.is_dead && th.tmp_ref == 0

-- One more than the allocated buffers is enough fuel for the release of an allocator.
abbrev pub release_fuel : Binder → ℕ → ℕ
release_fuel b p = suc (length (in_order (b.allocs p).allocated_buffers))

module _ (rb : RbLib) where
  unfoldable pub binder_free_proc : Binder → ℕ → Run (Option Binder)
  unfolding binder_alloc_deferred_release
  binder_free_proc b p =
      bug_on (not (binder_worklist_empty (b.procs p).todo))
      >> (bug_on (not (binder_worklist_empty (b.procs p).delivered_death))
          >> (binder_alloc_deferred_release rb (release_fuel b p) (b.allocs p) >>=? λ r.
              ok (some (record (set_alloc b p r.alloc) { freed_procs = p ∷ b.freed_procs }))))

  unfoldable pub binder_proc_dec_tmpref : Binder → ℕ → Run (Option Binder)
  unfolding binder_free_proc
  binder_proc_dec_tmpref b p =
      let b' = dec_proc b p in
      if proc_unused (b'.procs p) then binder_free_proc b' p else ok (some b')

  unfoldable pub binder_free_thread : Binder → ℕ → Run (Option Binder)
  unfolding binder_proc_dec_tmpref
  binder_free_thread b t =
      bug_on (not (binder_worklist_empty (b.threads t).todo))
      >> (binder_proc_dec_tmpref b (b.threads t).proc >>=? λ b'.
          ok (some (record b' { freed_threads = t ∷ b'.freed_threads })))

  unfoldable pub binder_thread_dec_tmpref : Binder → ℕ → Run (Option Binder)
  unfolding binder_free_thread
  binder_thread_dec_tmpref b t =
      let b' = dec_thread b t in
      if thread_unused (b'.threads t) then binder_free_thread b' t else ok (some b')
