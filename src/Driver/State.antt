-- ===== src/Driver/State.antt =====
-- The structures of binder.c. An object is named by a number that stands for its address; a
-- missing object has been freed, and to read one is a fault of the model, `bug`. An `int` counter
-- is its 32-bit pattern.
use headless_testing.Base.{ℕ, Bool, false, Option, none, some, List, ◌==◌, if◌then◌else◌}
use headless_testing.Kernel.{Run, bug}
use headless_testing.Base.Int.{ℤ}
use headless_testing.RbTree.{Tree}
use headless_testing.Alloc.State.{BinderAlloc, BinderBuffer, find}
use headless_testing.Priority.{Task, BinderPriority, SchedCall, TransactionPriority}

-- The lists that a `struct binder_work` can be on, by their owner.
pub data WorkList : Type 0 where
  proc_todo thread_todo async_todo delivered_death : ℕ → WorkList

-- `struct binder_work`, by the object that it is embedded in.
pub data Work : Type 0 where
  transaction_work transaction_complete node_work death_work return_error_work reply_error_work :
      ℕ → Work

-- `struct binder_node`
pub record BinderNode : Type 0 where
  pub proc : Option ℕ
  pub refs : List ℕ
  pub internal_strong_refs : ℕ
  pub local_weak_refs : ℕ
  pub local_strong_refs : ℕ
  pub tmp_refs : ℕ
  pub ptr : ℕ
  pub cookie : ℕ
  pub has_strong_ref : Bool
  pub pending_strong_ref : Bool
  pub has_weak_ref : Bool
  pub pending_weak_ref : Bool
  pub sched_policy : ℕ
  pub inherit_rt : Bool
  pub accept_fds : Bool
  pub txn_security_ctx : Bool
  pub min_priority : ℤ
  pub has_async_transaction : Bool
  pub work_entry : Option WorkList

-- The kinds of work that a death notification can be; none yet when it is allocated.
pub data DeathWork : Type 0 where
  no_death_work dead_binder dead_binder_and_clear clear_death_notification : DeathWork

-- `struct binder_ref_death`: the type of its work, and the list that the work is on.
pub record BinderRefDeath : Type 0 where
  pub cookie : ℕ
  pub kind : DeathWork
  pub entry : Option WorkList

-- A pointer to a buffer: the process whose allocator holds it, and its address.
pub record BufferPtr : Type 0 where
  pub owner : ℕ
  pub addr : ℕ

-- `struct binder_transaction`, with the bits of `flags` that the driver reads.
pub record BinderTransaction : Type 0 where
  pub from : Option ℕ
  pub from_parent : Option ℕ
  pub to_proc : Option ℕ
  pub to_thread : Option ℕ
  pub to_parent : Option ℕ
  pub need_reply : Bool
  pub buffer : Option BufferPtr
  pub code : ℕ
  pub one_way : Bool
  pub accept_fds : Bool
  pub priority : TransactionPriority
  pub sender_euid : ℕ
  pub security_ctx : ℕ

-- `struct binder_ref_data`
pub record BinderRefData : Type 0 where
  pub desc : ℕ
  pub strong : ℕ
  pub weak : ℕ

-- `struct binder_ref`; `node` is none once the node outlives a reference that is being deleted.
pub record BinderRef : Type 0 where
  pub ref_data : BinderRefData
  pub proc : ℕ
  pub node : Option ℕ
  pub death : Option ℕ

-- The bits of `looper`.
pub record Looper : Type 0 where
  pub registered : Bool
  pub entered : Bool
  pub exited : Bool
  pub invalid : Bool
  pub waiting : Bool
  pub poll : Bool

-- The return commands that the error work of a thread carries.
pub data Reply : Type 0 where
  br_ok br_error br_dead_reply br_failed_reply br_transaction_complete : Reply

-- `struct binder_thread`
pub record BinderThread : Type 0 where
  pub proc : ℕ
  pub pid : ℕ
  pub task : Task
  pub looper : Looper
  pub looper_need_return : Bool
  pub transaction_stack : Option ℕ
  pub todo : List Work
  pub process_todo : Bool
  pub return_error : Reply
  pub reply_error : Reply
  pub tmp_ref : ℕ
  pub is_dead : Bool

-- `struct binder_proc`
pub record BinderProc : Type 0 where
  pub threads : Tree
  pub nodes : Tree
  pub refs_by_desc : Tree
  pub refs_by_node : Tree
  pub waiting_threads : List ℕ
  pub is_dead : Bool
  pub todo : List Work
  pub delivered_death : List Work
  pub max_threads : ℕ
  pub requested_threads : ℕ
  pub requested_threads_started : ℕ
  pub tmp_ref : ℕ
  pub default_priority : BinderPriority
  pub context : ℕ

-- What the driver does to sleeping threads.
pub data Wake : Type 0 where
  wake_up wake_up_sync wake_up_pollfree : ℕ → Wake

-- The driver's heap. `async` holds each node's `async_todo`, `allocs` each process's allocator, and
-- `sched` the calls that change a thread's scheduling. `binder_procs` lists the open processes, and
-- `context_mgr` has each context's manager node. Threads and processes that were freed are listed.
pub record Binder : Type 0 where
  pub procs : ℕ → BinderProc
  pub threads : ℕ → BinderThread
  pub nodes : ℕ → Option BinderNode
  pub refs : ℕ → Option BinderRef
  pub async : ℕ → List Work
  pub txns : ℕ → Option BinderTransaction
  pub deaths : ℕ → Option BinderRefDeath
  pub allocs : ℕ → BinderAlloc
  pub dead_nodes : List ℕ
  pub wakes : List Wake
  pub sched : List (ℕ × List SchedCall)
  pub binder_procs : List ℕ
  pub context_mgr : ℕ → Option ℕ
  pub freed_threads : List ℕ
  pub freed_procs : List ℕ

-- A heap with one place written.
abbrev pub write {ℓ} : {A : Type ℓ} → ℕ → A → (ℕ → A) → ℕ → A
write i v h j = if j == i then v else h j

abbrev pub set_node : Binder → ℕ → BinderNode → Binder
set_node b n nd = record b { nodes = write n (some nd) b.nodes }

abbrev pub set_proc : Binder → ℕ → BinderProc → Binder
set_proc b p pr = record b { procs = write p pr b.procs }

abbrev pub set_thread : Binder → ℕ → BinderThread → Binder
set_thread b t th = record b { threads = write t th b.threads }

abbrev pub set_ref : Binder → ℕ → BinderRef → Binder
set_ref b r rf = record b { refs = write r (some rf) b.refs }

abbrev pub with_node : {A : Type 0} → Binder → ℕ → (BinderNode → Run A) → Run A
with_node b n k = elim (b.nodes n) [ none ↦ bug | some nd ↦ k nd ]

abbrev pub with_ref : {A : Type 0} → Binder → ℕ → (BinderRef → Run A) → Run A
with_ref b r k = elim (b.refs r) [ none ↦ bug | some rf ↦ k rf ]

abbrev pub set_txn : Binder → ℕ → BinderTransaction → Binder
set_txn b t tx = record b { txns = write t (some tx) b.txns }

abbrev pub set_death : Binder → ℕ → BinderRefDeath → Binder
set_death b d dn = record b { deaths = write d (some dn) b.deaths }

abbrev pub set_alloc : Binder → ℕ → BinderAlloc → Binder
set_alloc b p a = record b { allocs = write p a b.allocs }

abbrev pub with_txn : {A : Type 0} → Binder → ℕ → (BinderTransaction → Run A) → Run A
with_txn b t k = elim (b.txns t) [ none ↦ bug | some tx ↦ k tx ]

abbrev pub with_death : {A : Type 0} → Binder → ℕ → (BinderRefDeath → Run A) → Run A
with_death b d k = elim (b.deaths d) [ none ↦ bug | some dn ↦ k dn ]

-- Read through a pointer to a buffer.
abbrev pub with_buffer : {A : Type 0} → Binder → BufferPtr → (BinderBuffer → Run A) → Run A
with_buffer b bp k = elim (find bp.addr (b.allocs bp.owner).buffers) [ none ↦ bug | some bf ↦ k bf ]

abbrev pub same_work : Work → Work → Bool
same_work (transaction_work a) (transaction_work b) = a == b
same_work (transaction_complete a) (transaction_complete b) = a == b
same_work (node_work a) (node_work b) = a == b
same_work (death_work a) (death_work b) = a == b
same_work (return_error_work a) (return_error_work b) = a == b
same_work (reply_error_work a) (reply_error_work b) = a == b
same_work _ _ = false
