-- ===== src/Driver/Node.antt =====
-- The reference counts of a binder node.
pub mod Counts
pub mod Gone
pub mod RoundTrip
use headless_testing.Base.{
  ℕ, ◌^◌, ◌+◌, Bool, true, false, not, ◌&&◌, ◌||◌, Option, none, some, List, [], ◌∷◌, ◌==◌, leb,
  ltb, if◌then◌else◌, is_some, inc32, dec32, erase,
}
use headless_testing.Kernel.{Run, ok, bug, ◌>>=◌, ◌>>◌, bug_on, Errno}
use headless_testing.RbTree.{RbLib, search_tree, Way, left, right, here, crash, toward}
use headless_testing.Driver.State.{
  WorkList, proc_todo, node_work, Binder, BinderNode, BinderProc, write, set_node, set_proc,
  with_node,
}
use headless_testing.Driver.Work.{binder_enqueue_work, binder_dequeue_work, binder_wakeup_proc}

abbrev pub no_refs : List ℕ → Bool
no_refs [] = true
no_refs (r ∷ rs) = false

-- Is `n` the manager node of its process's context?
abbrev pub is_context_mgr : Binder → ℕ → Option ℕ → Bool
is_context_mgr b n none = false
is_context_mgr b n (some p) = elim (b.context_mgr (b.procs p).context) [
  | none ↦ false
  | some m ↦ m == n
]

-- Take the node's work off its list, and put it on another.
unfoldable pub move_node_work : Binder → ℕ → BinderNode → WorkList → Binder
unfolding binder_enqueue_work binder_dequeue_work
move_node_work b n nd l =
    let off = binder_dequeue_work b (node_work n) nd.work_entry in
    set_node (binder_enqueue_work off (node_work n) l) n (record nd { work_entry = some l })

-- A first internal strong count without a list to queue the node's work on. Only the context
-- manager's node that user space knows of can do without.
abbrev pub lacks_list : Binder → ℕ → BinderNode → Bool → Option WorkList → Bool
lacks_list b n nd internal target_list =
    internal
    && not (is_some target_list)
    && nd.internal_strong_refs == 0
    && not (is_context_mgr b n nd.proc && nd.has_strong_ref)

-- The strong half of `binder_inc_node_nilocked`.
unfoldable pub inc_strong : Binder → ℕ → BinderNode → Bool → Option WorkList → Binder × Option Errno
unfolding move_node_work
inc_strong b n nd internal target_list =
    let counted =
      if internal
      then record nd { internal_strong_refs = inc32 nd.internal_strong_refs }
      else record nd { local_strong_refs = inc32 nd.local_strong_refs } in
    if lacks_list b n nd internal target_list then (b, some Errno.einval) else elim target_list [
      | none ↦ (set_node b n counted, none)
      | some l ↦
          if nd.has_strong_ref
          then (set_node b n counted, none)
          else (move_node_work b n counted l, none)
    ]

-- The weak half. The error leaves the local count raised.
unfoldable pub inc_weak : Binder → ℕ → BinderNode → Bool → Option WorkList → Binder × Option Errno
unfolding move_node_work
inc_weak b n nd internal target_list =
    let counted =
      if internal then nd else record nd { local_weak_refs = inc32 nd.local_weak_refs } in
    if not nd.has_weak_ref && not (is_some nd.work_entry)
    then elim target_list [
      | none ↦ (set_node b n counted, some Errno.einval)
      | some l ↦ (move_node_work b n counted l, none)
    ]
    else (set_node b n counted, none)

-- `binder_inc_node_nilocked`, and `binder_inc_node` with its locks; none is the return value 0.
unfoldable pub binder_inc_node :
    Binder → ℕ → Bool → Bool → Option WorkList → Run (Binder × Option Errno)
unfolding inc_strong inc_weak
binder_inc_node b n strong internal target_list = with_node b n λ nd.
    if strong
    then ok (inc_strong b n nd internal target_list)
    else ok (inc_weak b n nd internal target_list)

-- The counts after a decrement.
abbrev pub dec_counts : BinderNode → Bool → Bool → BinderNode
dec_counts nd true true = record nd { internal_strong_refs = dec32 nd.internal_strong_refs }
dec_counts nd true false = record nd { local_strong_refs = dec32 nd.local_strong_refs }
dec_counts nd false true = nd
dec_counts nd false false = record nd { local_weak_refs = dec32 nd.local_weak_refs }

-- Does the count that was lowered still hold the node?
abbrev pub still_held : BinderNode → Bool → Bool
still_held nd true = not (nd.local_strong_refs == 0) || not (nd.internal_strong_refs == 0)
still_held nd false =
    not (nd.local_weak_refs == 0) || not (nd.tmp_refs == 0) || not (no_refs nd.refs)

-- Nobody refers to the node.
abbrev pub unreferenced : BinderNode → Bool
unreferenced nd =
    no_refs nd.refs && nd.local_strong_refs == 0 && nd.local_weak_refs == 0 && nd.tmp_refs == 0

-- Tell the owner that its node is no longer referenced: queue the node's work, if it is not.
unfoldable pub notify_owner : Binder → ℕ → BinderNode → ℕ → Binder
unfolding binder_enqueue_work binder_wakeup_proc
notify_owner b n nd p =
    if is_some nd.work_entry
    then b
    else binder_wakeup_proc
        (set_node (binder_enqueue_work b (node_work n) (proc_todo p)) n
          (record nd { work_entry = some (proc_todo p) }))
        p

-- `binder_free_node`
abbrev pub binder_free_node : Binder → ℕ → Binder
binder_free_node b n = record b { nodes = write n none b.nodes }

abbrev pub free_if : ℕ → Binder × Bool → Run Binder
free_if n (b, free_node) = ok (if free_node then binder_free_node b n else b)

unfoldable pub binder_inc_node_tmpref : Binder → ℕ → Run Binder
binder_inc_node_tmpref b n =
    with_node b n λ nd. ok (set_node b n (record nd { tmp_refs = inc32 nd.tmp_refs }))

module _ (rb : RbLib) where
  -- Take an unreferenced node out of its owner's tree, or out of the list of dead nodes.
  unfoldable pub unlink_node : Binder → ℕ → BinderNode → Option ℕ → Run Binder
  unfolding binder_dequeue_work
  unlink_node b n nd (some p) =
      let off = binder_dequeue_work b (node_work n) nd.work_entry in
      let pr = off.procs p in
      ok (
        set_node (set_proc off p (record pr { nodes = rb.rb_erase n pr.nodes })) n
          (record nd { work_entry = none }))
  unlink_node b n nd none =
      bug_on (is_some nd.work_entry) >> ok (record b { dead_nodes = erase n b.dead_nodes })

  -- What follows once the lowered count no longer holds the node.
  unfoldable pub drop_node : Binder → ℕ → BinderNode → Run (Binder × Bool)
  unfolding notify_owner unlink_node
  drop_node b n nd =
      if is_some nd.proc && (nd.has_strong_ref || nd.has_weak_ref)
      then elim nd.proc [ none ↦ bug | some p ↦ ok (notify_owner b n nd p, false) ]
      else if unreferenced nd
      then (unlink_node b n nd nd.proc >>= λ b'. ok (b', true))
      else ok (b, false)

  -- `binder_dec_node_nilocked`: must the caller free the node?
  unfoldable pub binder_dec_node_nilocked : Binder → ℕ → Bool → Bool → Run (Binder × Bool)
  unfolding drop_node
  binder_dec_node_nilocked b n strong internal = with_node b n λ nd.
      let nd' = dec_counts nd strong internal in
      let b' = set_node b n nd' in
      if still_held nd' strong then ok (b', false) else drop_node b' n nd'

  unfoldable pub binder_dec_node : Binder → ℕ → Bool → Bool → Run Binder
  unfolding binder_dec_node_nilocked
  binder_dec_node b n strong internal = binder_dec_node_nilocked b n strong internal >>= free_if n

  -- `binder_dec_node_tmpref`, and `binder_put_node`.
  unfoldable pub binder_dec_node_tmpref : Binder → ℕ → Run Binder
  unfolding binder_dec_node_nilocked
  binder_dec_node_tmpref b n = with_node b n λ nd. do
    let tmp = dec32 nd.tmp_refs
    bug_on (leb (2 ^ 31) tmp)
    let b' = set_node b n (record nd { tmp_refs = tmp })
    done ← binder_dec_node_nilocked b' n false true
    free_if n done

-- The way to the node with a given `ptr`.
abbrev pub by_ptr : Binder → ℕ → ℕ → Way
by_ptr b k n = elim (b.nodes n) [ none ↦ crash | some nd ↦ toward k nd.ptr ]

-- `binder_get_node`, with a temporary reference on what it finds.
unfoldable pub binder_get_node : Binder → ℕ → ℕ → Run (Binder × Option ℕ)
unfolding binder_inc_node_tmpref
binder_get_node b p k = do
  found ← search_tree (by_ptr b k) (b.procs p).nodes
  elim found [ none ↦ ok (b, none) | some n ↦ binder_inc_node_tmpref b n >>= λ b'. ok (b', some n) ]
