-- ===== src/Driver/Ioctl.antt =====
-- What a process asks of the driver's file: exchanges of commands and returns, the context manager,
-- polling and the list of nodes.
pub mod Tests
pub mod Exchange
pub mod Uids
use headless_testing.Base.{
  ℕ, Bool, true, false, not, ◌||◌, Option, none, some, List, [], ◌∷◌, ◌++◌, ◌==◌, ltb,
  if◌then◌else◌, inc32,
}
use headless_testing.Kernel.{Run, ok, bug, ◌>>=◌, Errno}
use headless_testing.RbTree.{RbLib, in_order}
use headless_testing.Priority.{Task}
use headless_testing.Driver.State.{
  Binder, BinderNode, wake_up, set_node, set_thread, with_node, write,
}
use headless_testing.Driver.Work.{binder_has_work, binder_available_for_proc_work}
use headless_testing.Driver.Node.{binder_dec_node_tmpref}
use headless_testing.Driver.Looper.{set_looper}
use headless_testing.Driver.Create.{FlatBinder, no_object, binder_new_node, binder_get_thread}

-- The driver, with `binder_context_mgr_uid` of each context, none while it is invalid.
abbrev pub Contexts : Type 0
Contexts = Binder × (ℕ → Option ℕ)

-- What the kernel answers: the security hook's error, memory for a node, and the current user.
pub record ManagerKernel : Type 0 where
  pub security : Option Errno
  pub kzalloc : Option ℕ
  pub curr_euid : ℕ

abbrev pub object_or_none : Option FlatBinder → FlatBinder
object_or_none none = no_object
object_or_none (some fp) = fp

-- May the user become the manager of a context with this user?
abbrev pub wrong_uid : Option ℕ → ℕ → Bool
wrong_uid none euid = false
wrong_uid (some uid) euid = not (uid == euid)

-- What the node list says of one node, all zero for none.
pub record NodeDebugInfo : Type 0 where
  pub ptr : ℕ
  pub cookie : ℕ
  pub has_strong_ref : Bool
  pub has_weak_ref : Bool

abbrev pub no_info : NodeDebugInfo
no_info = record { ptr = 0; cookie = 0; has_strong_ref = false; has_weak_ref = false }

abbrev pub info_of : BinderNode → NodeDebugInfo
info_of nd = record {
  ptr = nd.ptr;
  cookie = nd.cookie;
  has_strong_ref = nd.has_strong_ref;
  has_weak_ref = nd.has_weak_ref;
}

-- The first node, in the order of the tree, whose pointer is greater.
unfoldable pub first_above : Binder → ℕ → List ℕ → Run NodeDebugInfo
first_above b ptr [] = ok no_info
first_above b ptr (n ∷ ns) =
    let rest = first_above b ptr ns in
    with_node b n λ nd. if ltb ptr nd.ptr then ok (info_of nd) else rest

unfoldable pub binder_ioctl_get_node_debug_info : Binder → ℕ → ℕ → Run NodeDebugInfo
unfolding first_above
binder_ioctl_get_node_debug_info b p ptr = first_above b ptr (in_order (b.procs p).nodes)

abbrev pub poll_thread : Binder → ℕ → Binder × Bool
poll_thread b th =
    let b' = set_looper b th (record (b.threads th).looper { poll = true }) in
    (b', binder_has_work b' th (binder_available_for_proc_work (b'.threads th)))

module _ (rb : RbLib) where
  -- `binder_poll`: is there something to read? None is POLLERR.
  unfoldable pub binder_poll : Binder → ℕ → ℕ → Task → Option ℕ → Run (Binder × Option Bool)
  unfolding binder_get_thread binder_has_work binder_available_for_proc_work
  binder_poll b p pid task kzalloc = binder_get_thread rb b p pid task kzalloc >>= λ r. elim r.1 [
    | none ↦ ok (r.0, none)
    | some th ↦ let polled = poll_thread r.0 th in ok (polled.0, some polled.1)
  ]

  -- The new node is the manager of context `c`.
  unfoldable pub become_manager : Binder → ℕ → ℕ → Run Binder
  unfolding binder_dec_node_tmpref
  become_manager b c n = with_node b n λ nd.
      binder_dec_node_tmpref rb
        (record (set_node b n (record nd {
          local_weak_refs = inc32 nd.local_weak_refs;
          local_strong_refs = inc32 nd.local_strong_refs;
          has_strong_ref = true;
          has_weak_ref = true;
        })) { context_mgr = write c (some n) b.context_mgr })
        n

  unfoldable pub add_manager : Contexts → ℕ → ℕ → Binder × Option ℕ → Run (Contexts × Option Errno)
  unfolding become_manager
  add_manager (b, uids) p c (b', none) = ok ((b', uids), some Errno.enomem)
  add_manager (b, uids) p c (b', some n) =
      become_manager b' c n >>= λ managed. ok ((managed, uids), none)

  -- `binder_ioctl_set_ctx_mgr`, with what it returns.
  unfoldable pub binder_ioctl_set_ctx_mgr :
      ManagerKernel → Contexts → ℕ → Option FlatBinder → Run (Contexts × Option Errno)
  unfolding binder_new_node add_manager
  binder_ioctl_set_ctx_mgr k (b, uids) p fbo =
      let c = (b.procs p).context in
      elim (b.context_mgr c) [
        | some m ↦ ok ((b, uids), some Errno.ebusy)
        | none ↦ elim k.security [
          | some e ↦ ok ((b, uids), some e)
          | none ↦
              if wrong_uid (uids c) k.curr_euid
              then ok ((b, uids), some Errno.eperm)
              else (binder_new_node rb b p k.kzalloc (object_or_none fbo)
                  >>= add_manager (b, write c (some k.curr_euid) uids) p c)
        ]
      ]
