-- ===== src/Driver/Counting.antt =====
-- The counts that user space holds: commands on references and nodes, and what the owner of a node
-- is told.
pub mod Tests
pub mod Told
use headless_testing.Base.{
  ℕ, Bool, true, false, not, ◌&&◌, ◌||◌, Option, none, some, List, [], ◌∷◌, ◌++◌, ◌==◌,
  if◌then◌else◌, inc32,
}
use headless_testing.Kernel.{Run, ok, bug, ◌>>=◌, ◌>>◌, bug_on, Errno}
use headless_testing.RbTree.{RbLib}
use headless_testing.Driver.State.{Binder, BinderNode, set_node, set_proc, with_node}
use headless_testing.Driver.Node.{
  no_refs, binder_free_node, binder_get_node, binder_dec_node_nilocked, binder_dec_node_tmpref,
}
use headless_testing.Driver.Ref.{
  inc_ref, inc_error, binder_inc_ref_for_node, binder_update_ref_for_handle,
}
use headless_testing.Driver.Transaction.{is_top}

-- What the owner of a node is told.
pub data NodeReturn : Type 0 where
  br_increfs br_acquire br_release br_decrefs : NodeReturn

-- Is the node referenced, strongly, or at all?
abbrev pub is_strong : BinderNode → Bool
is_strong nd = not (nd.internal_strong_refs == 0) || not (nd.local_strong_refs == 0)

abbrev pub is_weak : BinderNode → Bool
is_weak nd =
    not (no_refs nd.refs) || not (nd.local_weak_refs == 0) || not (nd.tmp_refs == 0) || is_strong nd

-- A new reference is kept for the owner until it has answered.
abbrev pub note_weak : Bool → BinderNode → BinderNode
note_weak weak nd =
    if weak && not nd.has_weak_ref
    then record nd {
      has_weak_ref = true;
      pending_weak_ref = true;
      local_weak_refs = inc32 nd.local_weak_refs;
    }
    else if weak
    then nd
    else record nd { has_weak_ref = false }

abbrev pub note_strong : Bool → BinderNode → BinderNode
note_strong strong nd =
    if strong && not nd.has_strong_ref
    then record nd {
      has_strong_ref = true;
      pending_strong_ref = true;
      local_strong_refs = inc32 nd.local_strong_refs;
    }
    else if strong
    then nd
    else record nd { has_strong_ref = false }

abbrev pub only_if : Bool → NodeReturn → List NodeReturn
only_if c r = if c then r ∷ [] else []

-- The returns that are due, in their order, from what is so and what the owner was told.
unfoldable pub node_returns : Bool → Bool → Bool → Bool → List NodeReturn
node_returns strong weak has_strong_ref has_weak_ref =
    only_if (weak && not has_weak_ref) br_increfs
    ++ only_if (strong && not has_strong_ref) br_acquire
    ++ only_if (not strong && has_strong_ref) br_release
    ++ only_if (not weak && has_weak_ref) br_decrefs

-- `binder_put_node_cmd` for each, until one fails: what was written, and the error.
unfoldable pub put_returns : (NodeReturn → Bool) → List NodeReturn → List NodeReturn × Option Errno
put_returns put_user [] = ([], none)
put_returns put_user (r ∷ rs) =
    let rest = put_returns put_user rs in
    if put_user r then (r ∷ rest.0, rest.1) else ([], some Errno.efault)

module _ (rb : RbLib) where
  -- The part of `binder_thread_read` for a node's work.
  unfoldable pub read_node :
      (NodeReturn → Bool) → Binder → ℕ → ℕ → Run (Binder × List NodeReturn × Option Errno)
  unfolding node_returns put_returns
  read_node put_user b p n = with_node b n λ nd. do
    bug_on (not (is_top nd.proc p))
    let strong = is_strong nd
    let weak = is_weak nd
    let kept = set_node b n (note_strong strong (note_weak weak nd))
    let pr = kept.procs p
    let freed = binder_free_node (set_proc kept p (record pr { nodes = rb.rb_erase n pr.nodes })) n
    let written = put_returns put_user (node_returns strong weak nd.has_strong_ref nd.has_weak_ref)
    ok (if not weak && not strong then freed else kept, written.0, written.1)

  -- The count that a command asks for, by its handle. Its errors are only logged.
  unfoldable pub update_handle : Binder → ℕ → ℕ → Bool → Bool → Run (Binder × Option Errno)
  unfolding binder_update_ref_for_handle
  update_handle b p target increment strong =
      binder_update_ref_for_handle rb b p target increment strong >>= λ r. ok (r.0, none)

  -- Handle 0 is the context manager's node, and may be new to the process.
  unfoldable pub acquire_manager : Binder → ℕ → ℕ → Bool → Option ℕ → Run (Binder × Option Errno)
  unfolding binder_inc_ref_for_node update_handle
  acquire_manager b p target strong kzalloc = elim (b.context_mgr (b.procs p).context) [
    | none ↦ update_handle b p target true strong
    | some m ↦ with_node b m λ nd.
        if is_top nd.proc p
        then ok (b, some Errno.einval)
        else (binder_inc_ref_for_node rb b p m strong none kzalloc >>= λ r. elim r.1 [
          | inc_ref rdata ↦ ok (r.0, none)
          | inc_error e ↦ update_handle r.0 p target true strong
        ])
  ]

  -- BC_INCREFS and BC_ACQUIRE with `increment`, BC_DECREFS and BC_RELEASE without; the error ends
  -- `binder_thread_write`.
  unfoldable pub bc_refs : Binder → ℕ → ℕ → Bool → Bool → Option ℕ → Run (Binder × Option Errno)
  unfolding acquire_manager update_handle
  bc_refs b p target increment strong kzalloc =
      if increment && target == 0
      then acquire_manager b p target strong kzalloc
      else update_handle b p target increment strong

  abbrev pub is_pending : BinderNode → Bool → Bool
  is_pending nd true = nd.pending_strong_ref
  is_pending nd false = nd.pending_weak_ref

  abbrev pub answered : BinderNode → Bool → BinderNode
  answered nd true = record nd { pending_strong_ref = false }
  answered nd false = record nd { pending_weak_ref = false }

  -- BC_ACQUIRE_DONE with `acquire`, BC_INCREFS_DONE without: the owner has the reference.
  unfoldable pub bc_done : Binder → ℕ → ℕ → ℕ → Bool → Run Binder
  unfolding binder_get_node binder_dec_node_nilocked binder_dec_node_tmpref
  bc_done b p node_ptr cookie acquire = do
    (held, found) ← binder_get_node b p node_ptr
    elim found [
      | none ↦ ok held
      | some n ↦ with_node held n λ nd.
          if not (cookie == nd.cookie) || not (is_pending nd acquire)
          then binder_dec_node_tmpref rb held n
          else (binder_dec_node_nilocked rb (set_node held n (answered nd acquire)) n acquire false
              >>= λ lowered. binder_dec_node_tmpref rb lowered.0 n)
    ]
