-- ===== src/Driver/Node/Counts.antt =====
-- The counts of a node that is taken, and what leaves them alone.
use headless_testing.Base.{
  ℕ, ◌^◌, ◌<◌, ◌≡◌, refl, Bool, true, false, not, ◌&&◌, Option, none, some, arith, if◌then◌else◌,
  inc32, is_some, if_both, subst,
}
use headless_testing.Kernel.{ok, Errno}
use headless_testing.Driver.State.{WorkList, Binder, BinderNode, set_node, node_work}
use headless_testing.Driver.Work.{
  binder_enqueue_work, binder_dequeue_work, binder_wakeup_proc, binder_wakeup_thread,
}
use headless_testing.Driver.Node.{binder_inc_node, inc_strong, inc_weak, move_node_work, lacks_list}

-- Two nodes with the same counts.
pub record SameCounts (nd nd' : BinderNode) : Type 0 where
  pub internal_strong : nd'.internal_strong_refs ≡ nd.internal_strong_refs
  pub local_strong : nd'.local_strong_refs ≡ nd.local_strong_refs
  pub local_weak : nd'.local_weak_refs ≡ nd.local_weak_refs
  pub tmp : nd'.tmp_refs ≡ nd.tmp_refs

-- The counts are 32-bit patterns.
pub record IsSmall (nd : BinderNode) : Type 0 where
  pub internal_strong : nd.internal_strong_refs < 2 ^ 32
  pub local_strong : nd.local_strong_refs < 2 ^ 32
  pub local_weak : nd.local_weak_refs < 2 ^ 32

-- Node `n` has the counts of `nd`.
pub record HasCounts (b : Binder) (n : ℕ) (nd : BinderNode) : Type 0 where
  pub found : BinderNode
  pub holds : b.nodes n ≡ some found
  pub same : SameCounts nd found

-- What an increment ends with: an error, or the counts of `nd`.
data Counted (n : ℕ) (nd : BinderNode) : Binder × Option Errno → Type 0 where
  fails : {b : Binder} (e : Errno) → Counted n nd (b, some e)
  counts : {b : Binder} → HasCounts b n nd → Counted n nd (b, none)

pub HasCounts-set_node :
    (b : Binder) (n : ℕ) (nd nd' : BinderNode)
    → SameCounts nd nd'
    → HasCounts (set_node b n nd') n nd
HasCounts-set_node b n nd nd' s = record { found = nd'; holds = ground arith; same = s }

pub same_counts :
    (nd : BinderNode) (e : Option WorkList) → SameCounts nd (record nd { work_entry = e })
same_counts nd e = record {
  internal_strong = refl;
  local_strong = refl;
  local_weak = refl;
  tmp = refl;
}

pub HasCounts-self : (b : Binder) (n : ℕ) (nd : BinderNode) → HasCounts (set_node b n nd) n nd
HasCounts-self b n nd = HasCounts-set_node b n nd nd (same_counts nd nd.work_entry)

move_node_work-HasCounts :
    (b : Binder) (n : ℕ) (nd : BinderNode) (l : WorkList) → HasCounts (move_node_work b n nd l) n nd
unfolding move_node_work
move_node_work-HasCounts b n nd l =
    HasCounts-set_node
      (binder_enqueue_work (binder_dequeue_work b (node_work n) nd.work_entry) (node_work n) l) n nd
      _ (same_counts nd (some l))

abbrev pub raised : BinderNode → Bool → Bool → BinderNode
raised nd true internal =
    if internal
    then record nd { internal_strong_refs = inc32 nd.internal_strong_refs }
    else record nd { local_strong_refs = inc32 nd.local_strong_refs }
raised nd false internal =
    if internal then nd else record nd { local_weak_refs = inc32 nd.local_weak_refs }

inc_strong-Counted :
    (b : Binder) (n : ℕ) (nd : BinderNode) (internal : Bool) (l : Option WorkList)
    → Counted n (raised nd true internal) (inc_strong b n nd internal l)
unfolding inc_strong
inc_strong-Counted b n nd internal none =
    if_both (Counted n (raised nd true internal)) (lacks_list b n nd internal none)
      (fails {b = b} Errno.einval) (counts (HasCounts-self b n (raised nd true internal)))
inc_strong-Counted b n nd internal (some l) =
    if_both (Counted n (raised nd true internal)) (lacks_list b n nd internal (some l))
      (fails {b = b} Errno.einval)
      (if_both (Counted n (raised nd true internal)) nd.has_strong_ref
        (counts (HasCounts-self b n (raised nd true internal)))
        (counts (move_node_work-HasCounts b n (raised nd true internal) l)))

inc_weak-Counted :
    (b : Binder) (n : ℕ) (nd : BinderNode) (internal : Bool) (l : Option WorkList)
    → Counted n (raised nd false internal) (inc_weak b n nd internal l)
unfolding inc_weak
inc_weak-Counted b n nd internal none =
    if_both (Counted n (raised nd false internal))
      (not nd.has_weak_ref && not (is_some nd.work_entry))
      (fails {b = set_node b n (raised nd false internal)} Errno.einval)
      (counts (HasCounts-self b n (raised nd false internal)))
inc_weak-Counted b n nd internal (some l) =
    if_both (Counted n (raised nd false internal))
      (not nd.has_weak_ref && not (is_some nd.work_entry))
      (counts (move_node_work-HasCounts b n (raised nd false internal) l))
      (counts (HasCounts-self b n (raised nd false internal)))

Counted-HasCounts :
    {n : ℕ} {nd : BinderNode} {b : Binder} → Counted n nd (b, none) → HasCounts b n nd
Counted-HasCounts (counts h) = h

pub binder_inc_node-HasCounts :
    (b b' : Binder) (n : ℕ) (nd : BinderNode) (strong internal : Bool) (l : Option WorkList)
    → b.nodes n ≡ some nd
    → binder_inc_node b n strong internal l ≡ ok (b', none)
    → HasCounts b' n (raised nd strong internal)
unfolding binder_inc_node
binder_inc_node-HasCounts b b' n nd true internal l e h =
    let r : inc_strong b n nd internal l ≡ (b', none) = ground (arith, h, e) in
    Counted-HasCounts
      (subst (Counted n (raised nd true internal)) r (inc_strong-Counted b n nd internal l))
binder_inc_node-HasCounts b b' n nd false internal l e h =
    let r : inc_weak b n nd internal l ≡ (b', none) = ground (arith, h, e) in
    Counted-HasCounts
      (subst (Counted n (raised nd false internal)) r (inc_weak-Counted b n nd internal l))

nodes-wakeup :
    (b : Binder) (p : ℕ) (t : Option ℕ) (sync : Bool)
    → (binder_wakeup_thread b p t sync).nodes ≡ b.nodes
unfolding binder_wakeup_thread
nodes-wakeup b p none sync = refl
nodes-wakeup b p (some t) sync = refl

nodes-binder_wakeup_proc : (b : Binder) (p : ℕ) → (binder_wakeup_proc b p).nodes ≡ b.nodes
unfolding binder_wakeup_proc
nodes-binder_wakeup_proc b p = nodes-wakeup _ p _ false

pub HasCounts-wakeup :
    (b : Binder) (p n : ℕ) (nd : BinderNode)
    → HasCounts b n nd
    → HasCounts (binder_wakeup_proc b p) n nd
HasCounts-wakeup b p n nd h = record {
  found = h.found;
  holds = rw (nodes-binder_wakeup_proc b p) h.holds;
  same = h.same;
}
