-- ===== src/Driver/Tests.antt =====
-- One process with a node, and with references under the handles 0, 1 and 3.
use headless_testing.Base.{
  ◌≢◌, ℕ, ◌≡◌, refl, Bool, true, false, Option, none, some, [], ◌∷◌, arith, if◌then◌else◌, ◌==◌,
}
use headless_testing.Base.Int.{pos}
use headless_testing.Alloc.Mmap.{binder_alloc_init}
use headless_testing.Priority.{Task}
use headless_testing.Kernel.{Run, ok, bug, Errno}
use headless_testing.RbTree.{leaf, node, in_order}
use headless_testing.RbTree.Plain.{plain}
use headless_testing.Driver.State.{Binder, BinderNode, BinderProc, BinderThread, BinderRef, br_ok}
use headless_testing.Driver.Node.{binder_inc_node, binder_dec_node_nilocked, dec_counts}
use headless_testing.Driver.Node.Counts.{HasCounts}
use headless_testing.Driver.Node.Gone.{IsGone, binder_dec_node_nilocked-IsGone}
use headless_testing.Driver.Node.RoundTrip.{binder_dec_node_nilocked-binder_inc_node}
use headless_testing.Driver.Ref.{first_desc, binder_get_ref, choose_desc}
use headless_testing.Driver.Ref.Handles.{
  IsLeastUnused, choose_desc-IsLeastUnused, LooksUp, binder_get_ref-LooksUp,
}

-- A node of a dead process, with one local strong count.
abbrev pub lone : BinderNode
lone = record {
  proc = none;
  refs = [];
  internal_strong_refs = 0;
  local_weak_refs = 0;
  local_strong_refs = 1;
  tmp_refs = 0;
  ptr = 4096;
  cookie = 0;
  has_strong_ref = false;
  pending_strong_ref = false;
  has_weak_ref = false;
  pending_weak_ref = false;
  sched_policy = 0;
  inherit_rt = false;
  accept_fds = true;
  txn_security_ctx = false;
  min_priority = pos 120;
  has_async_transaction = false;
  work_entry = none;
}

abbrev pub a_proc : BinderProc
a_proc = record {
  threads = leaf;
  nodes = leaf;
  refs_by_desc = node (node leaf 10 leaf) 11 (node leaf 13 leaf);
  refs_by_node = leaf;
  waiting_threads = [];
  is_dead = false;
  todo = [];
  delivered_death = [];
  max_threads = 15;
  requested_threads = 0;
  requested_threads_started = 0;
  tmp_ref = 0;
  default_priority = record { sched_policy = 0; prio = pos 120 };
  context = 0;
}

abbrev pub a_task : Task
a_task = record {
  policy = 0;
  normal_prio = pos 120;
  has_cap_nice = false;
  max_rtprio = pos 0;
  min_nice = pos 0;
}

abbrev pub a_thread : BinderThread
a_thread = record {
  proc = 0;
  pid = 100;
  task = a_task;
  looper = record {
    registered = false;
    entered = true;
    exited = false;
    invalid = false;
    waiting = false;
    poll = false;
  };
  looper_need_return = false;
  transaction_stack = none;
  todo = [];
  process_todo = false;
  return_error = br_ok;
  reply_error = br_ok;
  tmp_ref = 0;
  is_dead = false;
}

-- Reference `r` has the handle `r - 10`, and one weak count.
abbrev pub a_ref : ℕ → BinderRef
a_ref desc = record {
  ref_data = record { desc = desc; strong = 0; weak = 1 };
  proc = 0;
  node = some 7;
  death = none;
}

abbrev pub driver : Binder
driver = record {
  procs = λ p. a_proc;
  threads = λ t. a_thread;
  nodes = λ n. if n == 7 then some lone else none;
  refs = λ r.
      if r == 10
      then some (a_ref 0)
      else if r == 11
      then some (a_ref 1)
      else if r == 13
      then some (a_ref 3)
      else none;
  async = λ n. [];
  txns = λ t. none;
  deaths = λ d. none;
  allocs = λ p. binder_alloc_init;
  dead_nodes = 7 ∷ [];
  wakes = [];
  sched = [];
  binder_procs = 0 ∷ [];
  context_mgr = λ c. none;
  freed_threads = [];
  freed_procs = [];
}

abbrev after_dec : Run (Binder × Bool) → Binder
after_dec bug = driver
after_dec (ok r) = r.0

abbrev after_inc : Run (Binder × Option Errno) → Binder
after_inc bug = driver
after_inc (ok r) = r.0

binder_dec_node_nilocked-IsGone_example : IsGone (dec_counts lone true false)
unfolding binder_dec_node_nilocked
binder_dec_node_nilocked-IsGone_example =
    binder_dec_node_nilocked-IsGone plain driver
      (after_dec (binder_dec_node_nilocked plain driver 7 true false)) 7 lone true false refl refl

abbrev raised_driver : Binder
raised_driver = after_inc (binder_inc_node driver 7 true false none)

abbrev lowered_driver : Binder
lowered_driver = after_dec (binder_dec_node_nilocked plain raised_driver 7 true false)

binder_dec_node_nilocked-binder_inc_node_example : HasCounts lowered_driver 7 lone
unfolding binder_dec_node_nilocked binder_inc_node
binder_dec_node_nilocked-binder_inc_node_example =
    binder_dec_node_nilocked-binder_inc_node plain driver raised_driver lowered_driver 7 lone true
      false none
      (record {
        internal_strong = omega arith;
        local_strong = omega arith;
        local_weak = omega arith;
      })
      refl refl refl

abbrev manager_node : Option ℕ
manager_node = some 7

choose_desc-IsLeastUnused_example :
    (manager_node ≡ some 7
      → IsLeastUnused 0 (0 ∷ 1 ∷ 3 ∷ []) (choose_desc (first_desc manager_node 7) (0 ∷ 1 ∷ 3 ∷ [])))
    × (manager_node ≢ some 7
        → IsLeastUnused 1
            (0 ∷ 1 ∷ 3 ∷ [])
            (choose_desc (first_desc manager_node 7) (0 ∷ 1 ∷ 3 ∷ [])))
choose_desc-IsLeastUnused_example =
    choose_desc-IsLeastUnused manager_node 7 (0 ∷ 1 ∷ 3 ∷ [])
      (omega arith, (omega arith, (omega arith, tt)))
      (omega arith, (omega arith, (omega arith, tt)))

-- A strong reference is asked for under handle 3, and the one there is weak.
binder_get_ref-LooksUp_example :
    (o : Option ℕ) × (binder_get_ref driver 0 3 true ≡ ok o)
    × LooksUp driver (in_order (driver.procs 0).refs_by_desc) 3 true o
binder_get_ref-LooksUp_example =
    binder_get_ref-LooksUp driver 0 3 true
      ((omega arith, (omega arith, tt)), ((omega arith, tt), (tt, tt)))
      ((a_ref 0, refl), ((a_ref 1, refl), ((a_ref 3, refl), tt)))
