-- ===== src/Driver/Create.antt =====
-- New nodes and threads.
pub mod Tests
pub mod Threads
use headless_testing.Base.{
  ℕ, ◌-◌, ◌/◌, ◌%◌, Bool, true, false, not, Option, none, some, [], ◌==◌, ltb, if◌then◌else◌,
}
use headless_testing.Base.Int.{ℤ, pos, negsuc}
use headless_testing.Kernel.{Run, ok, ◌>>=◌}
use headless_testing.RbTree.{RbLib, search_tree, link, Way, toward}
use headless_testing.Priority.{Task, to_kernel_prio}
use headless_testing.Driver.State.{
  Binder, BinderNode, BinderThread, Looper, br_ok, set_node, set_thread, set_proc,
}
use headless_testing.Driver.Node.{by_ptr, binder_inc_node_tmpref}
use headless_testing.Driver.Ref.{fresh_way}

-- What a new node takes from a `struct flat_binder_object`.
pub record FlatBinder : Type 0 where
  pub binder : ℕ
  pub cookie : ℕ
  pub flags : ℕ

-- The fields for a node without an object: all are 0.
abbrev pub no_object : FlatBinder
no_object = record { binder = 0; cookie = 0; flags = 0 }

-- An `s8`, and a number stored in a `u8`.
abbrev pub s8_of : ℕ → ℤ
s8_of x = if ltb (x % 256) 128 then pos (x % 256) else negsuc (255 - x % 256)

abbrev pub u8_of : ℤ → ℤ
u8_of (pos n) = pos (n % 256)
u8_of (negsuc n) = pos (255 - n % 256)

-- A flag of FLAT_BINDER_FLAG_*, by its mask.
abbrev pub has_flag : ℕ → ℕ → Bool
has_flag flags mask = not (flags / mask % 2 == 0)

-- A zeroed node, filled in, with a first temporary reference.
unfoldable pub fresh_node : ℕ → FlatBinder → BinderNode
unfolding to_kernel_prio
fresh_node p fp =
    let policy = fp.flags / 512 % 4 in
    record {
      proc = some p;
      refs = [];
      internal_strong_refs = 0;
      local_weak_refs = 0;
      local_strong_refs = 0;
      tmp_refs = 1;
      ptr = fp.binder;
      cookie = fp.cookie;
      has_strong_ref = false;
      pending_strong_ref = false;
      has_weak_ref = false;
      pending_weak_ref = false;
      sched_policy = policy;
      inherit_rt = has_flag fp.flags 2048;
      accept_fds = has_flag fp.flags 256;
      txn_security_ctx = has_flag fp.flags 4096;
      min_priority = u8_of (to_kernel_prio policy (s8_of fp.flags));
      has_async_transaction = false;
      work_entry = none;
    }

abbrev pub fresh_looper : Looper
fresh_looper = record {
  registered = false;
  entered = false;
  exited = false;
  invalid = false;
  waiting = false;
  poll = false;
}

abbrev pub fresh_thread : ℕ → ℕ → Task → BinderThread
fresh_thread p pid task = record {
  proc = p;
  pid = pid;
  task = task;
  looper = fresh_looper;
  looper_need_return = true;
  transaction_stack = none;
  todo = [];
  process_todo = false;
  return_error = br_ok;
  reply_error = br_ok;
  tmp_ref = 0;
  is_dead = false;
}

-- The way to the thread with a given pid.
abbrev pub by_pid : Binder → ℕ → ℕ → Way
by_pid b pid th = toward pid (b.threads th).pid

module _ (rb : RbLib) where
  -- `binder_init_node_ilocked`, with the memory `new_node`.
  unfoldable pub binder_init_node : Binder → ℕ → ℕ → FlatBinder → Run (Binder × ℕ)
  unfolding binder_inc_node_tmpref fresh_node
  binder_init_node b p new_node fp = do
    let pr = b.procs p
    found ← search_tree (by_ptr b fp.binder) pr.nodes
    elim found [
      | some n ↦ binder_inc_node_tmpref b n >>= λ b'. ok (b', n)
      | none ↦ do
        linked ← link (λ m. fresh_way (by_ptr b fp.binder m)) new_node pr.nodes
        ok (
          set_node (set_proc b p (record pr { nodes = rb.rb_insert_color new_node linked }))
              new_node (fresh_node p fp),
          new_node,
        )
    ]

  -- `binder_new_node`, where `kzalloc` answers with memory or none. A node that is there already is
  -- returned, and the memory is freed.
  unfoldable pub binder_new_node : Binder → ℕ → Option ℕ → FlatBinder → Run (Binder × Option ℕ)
  unfolding binder_init_node
  binder_new_node b p kzalloc fp = elim kzalloc [
    | none ↦ ok (b, none)
    | some new_node ↦ binder_init_node b p new_node fp >>= λ r. ok (r.0, some r.1)
  ]

  -- `binder_get_thread_ilocked` for the current task.
  unfoldable pub binder_get_thread_ilocked :
      Binder → ℕ → ℕ → Task → Option ℕ → Run (Binder × Option ℕ)
  binder_get_thread_ilocked b p pid task new_thread = do
    let pr = b.procs p
    found ← search_tree (by_pid b pid) pr.threads
    elim found [
      | some th ↦ ok (b, some th)
      | none ↦ elim new_thread [
        | none ↦ ok (b, none)
        | some th ↦ do
          linked ← link (λ x. fresh_way (by_pid b pid x)) th pr.threads
          ok (
            set_thread (set_proc b p (record pr { threads = rb.rb_insert_color th linked })) th
                (fresh_thread p pid task),
            some th,
          )
      ]
    ]

  -- `binder_get_thread`, where `kzalloc` answers with memory or none.
  unfoldable pub binder_get_thread : Binder → ℕ → ℕ → Task → Option ℕ → Run (Binder × Option ℕ)
  unfolding binder_get_thread_ilocked
  binder_get_thread b p pid task kzalloc = do
    (b', found) ← binder_get_thread_ilocked b p pid task none
    elim found [
      | some th ↦ ok (b', some th)
      | none ↦ elim kzalloc [
        | none ↦ ok (b', none)
        | some new_thread ↦ binder_get_thread_ilocked b' p pid task (some new_thread)
      ]
    ]
