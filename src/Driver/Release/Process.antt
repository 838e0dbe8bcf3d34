-- ===== src/Driver/Release/Process.antt =====
-- `binder_deferred_release`: the threads, nodes and references of a process that was closed.
use headless_testing.Base.{ℕ, zero, suc, ◌+◌, Bool, true, Option, none, some, erase, inc32}
use headless_testing.Kernel.{Run, ok, ◌>>=◌, ◌>>◌, bug_on, ◌>>=?◌}
use headless_testing.RbTree.{RbLib, rb_first}
use headless_testing.Driver.State.{Binder, proc_todo, delivered_death, set_proc}
use headless_testing.Driver.Node.{binder_inc_node_tmpref}
use headless_testing.Driver.Ref.{binder_cleanup_ref, binder_free_ref}
use headless_testing.Driver.Lifetime.{inc_proc, binder_proc_dec_tmpref}
use headless_testing.Driver.Release.{
  binder_thread_release, binder_node_release, binder_release_work, drop_context_mgr,
}

-- How many there were of each.
pub record ReleaseCounts : Type 0 where
  pub threads : ℕ
  pub active_transactions : ℕ
  pub nodes : ℕ
  pub incoming_refs : ℕ
  pub outgoing_refs : ℕ

abbrev pub no_counts : ReleaseCounts
no_counts = record {
  threads = 0;
  active_transactions = 0;
  nodes = 0;
  incoming_refs = 0;
  outgoing_refs = 0;
}

-- The process is closed: it is off the list of processes, held, and dead.
abbrev pub close_proc : Binder → ℕ → Binder
close_proc b p =
    let off = record b { binder_procs = erase p b.binder_procs } in
    let held = inc_proc off p in set_proc held p (record (held.procs p) { is_dead = true })

module _ (rb : RbLib) where
  -- The loop over the threads. The first argument is the fuel of the loops inside.
  unfoldable pub release_threads :
      ℕ → ℕ → Binder → ℕ → ReleaseCounts → Run (Option (Binder × ReleaseCounts))
  unfolding binder_thread_release
  release_threads inner zero b p c = ok none
  release_threads inner (suc fuel) b p c = elim (rb_first (b.procs p).threads) [
    | none ↦ ok (some (b, c))
    | some th ↦ binder_thread_release rb inner b p th >>=? λ r.
        release_threads inner fuel r.0 p (record c {
          threads = inc32 c.threads;
          active_transactions = c.active_transactions + r.1;
        })
  ]

  -- The loop over the nodes. A node leaves the tree before it is released.
  unfoldable pub release_nodes :
      ℕ → ℕ → Binder → ℕ → ReleaseCounts → Run (Option (Binder × ReleaseCounts))
  unfolding binder_inc_node_tmpref binder_node_release
  release_nodes inner zero b p c = ok none
  release_nodes inner (suc fuel) b p c = elim (rb_first (b.procs p).nodes) [
    | none ↦ ok (some (b, c))
    | some n ↦ binder_inc_node_tmpref b n >>= λ held.
        let pr = held.procs p in
        let off = set_proc held p (record pr { nodes = rb.rb_erase n pr.nodes }) in
        binder_node_release rb inner off n c.incoming_refs >>=? λ r.
        release_nodes inner fuel r.0 p (record c { nodes = inc32 c.nodes; incoming_refs = r.1 })
  ]

  -- The loop over the references that the process holds.
  unfoldable pub release_refs :
      ℕ → Binder → ℕ → ReleaseCounts → Run (Option (Binder × ReleaseCounts))
  unfolding binder_cleanup_ref binder_free_ref
  release_refs zero b p c = ok none
  release_refs (suc fuel) b p c = elim (rb_first (b.procs p).refs_by_desc) [
    | none ↦ ok (some (b, c))
    | some r ↦ binder_cleanup_ref rb b r >>= λ cleaned. binder_free_ref cleaned r >>= λ freed.
        release_refs fuel freed p (record c { outgoing_refs = inc32 c.outgoing_refs })
  ]

  -- `binder_deferred_release` of a process whose `files` are gone or not. `fuel` bounds each loop.
  unfoldable pub binder_deferred_release :
      ℕ → Binder → ℕ → Bool → Run (Option (Binder × ReleaseCounts))
  unfolding release_threads release_nodes release_refs binder_release_work binder_proc_dec_tmpref
  binder_deferred_release fuel b p files =
      bug_on files
      >> (drop_context_mgr b p >>= λ dropped.
          release_threads fuel fuel (close_proc dropped p) p no_counts >>=? λ r1.
          release_nodes fuel fuel r1.0 p r1.1 >>=? λ r2. release_refs fuel r2.0 p r2.1 >>=? λ r3.
          binder_release_work rb fuel fuel r3.0 (proc_todo p) >>=? λ emptied.
          binder_release_work rb fuel fuel emptied (delivered_death p) >>=? λ quiet.
          binder_proc_dec_tmpref rb quiet p >>=? λ b'. ok (some (b', r3.1)))
