-- ===== src/Driver/Node/RoundTrip.antt =====
-- A count that is taken and given back.
use headless_testing.Base.{
  ℕ, ◌≡◌, Bool, true, false, ◌&&◌, ◌||◌, Option, none, some, arith, is_some, if_both, subst,
}
use headless_testing.Kernel.{Run, ok, bug, ◌>>=◌}
use headless_testing.RbTree.{RbLib}
use headless_testing.Driver.State.{
  WorkList, proc_todo, Binder, with_node, BinderNode, set_node, node_work,
}
use headless_testing.Driver.Work.{binder_enqueue_work}
use headless_testing.Driver.Node.{
  binder_inc_node, binder_dec_node_nilocked, dec_counts, still_held, unreferenced, drop_node,
  unlink_node, notify_owner,
}
use headless_testing.Driver.Node.Counts.{
  SameCounts, IsSmall, HasCounts, HasCounts-set_node, same_counts, HasCounts-self, HasCounts-wakeup,
  raised, binder_inc_node-HasCounts,
}

-- What a decrement ends with: the node goes, or it stays with the counts of `nd`.
data Kept (n : ℕ) (nd : BinderNode) : Run (Binder × Bool) → Type 0 where
  crashes : Kept n nd bug
  goes : {b : Binder} → Kept n nd (ok (b, true))
  stays : {b : Binder} → HasCounts b n nd → Kept n nd (ok (b, false))

Kept-HasCounts :
    {n : ℕ} {nd : BinderNode} {b : Binder} → Kept n nd (ok (b, false)) → HasCounts b n nd
Kept-HasCounts (stays h) = h

-- Lowering a count that was raised.
dec_counts-raised :
    (nd nd' : BinderNode) (strong internal : Bool)
    → IsSmall nd
    → SameCounts (raised nd strong internal) nd'
    → SameCounts nd (dec_counts nd' strong internal)
dec_counts-raised nd nd' true true k s = record {
  internal_strong = ground (arith, k.internal_strong, s.internal_strong);
  local_strong = s.local_strong;
  local_weak = s.local_weak;
  tmp = s.tmp;
}
dec_counts-raised nd nd' true false k s = record {
  internal_strong = s.internal_strong;
  local_strong = ground (arith, k.local_strong, s.local_strong);
  local_weak = s.local_weak;
  tmp = s.tmp;
}
dec_counts-raised nd nd' false true k s = s
dec_counts-raised nd nd' false false k s = record {
  internal_strong = s.internal_strong;
  local_strong = s.local_strong;
  local_weak = ground (arith, k.local_weak, s.local_weak);
  tmp = s.tmp;
}

SameCounts-trans :
    (nd nd' nd'' : BinderNode) → SameCounts nd nd' → SameCounts nd' nd'' → SameCounts nd nd''
SameCounts-trans nd nd' nd'' s t = record {
  internal_strong = cc;
  local_strong = cc;
  local_weak = cc;
  tmp = cc;
}

module _ (rb : RbLib) where
  notify_owner-HasCounts :
      (b : Binder) (n : ℕ) (nd : BinderNode) (p : ℕ)
      → b.nodes n ≡ some nd
      → HasCounts (notify_owner b n nd p) n nd
  unfolding notify_owner
  notify_owner-HasCounts b n nd p e =
      if_both (λ c. HasCounts c n nd) (is_some nd.work_entry)
        (record { found = nd; holds = e; same = same_counts nd nd.work_entry })
        (HasCounts-wakeup
          (set_node (binder_enqueue_work b (node_work n) (proc_todo p)) n
            (record nd { work_entry = some (proc_todo p) }))
          p n nd
          (HasCounts-set_node (binder_enqueue_work b (node_work n) (proc_todo p)) n nd
            (record nd { work_entry = some (proc_todo p) }) (same_counts nd (some (proc_todo p)))))

  unlink-Kept :
      (b : Binder) (n : ℕ) (nd : BinderNode)
      → Kept n nd (unlink_node rb b n nd nd.proc >>= λ b'. ok (b', true))
  unlink-Kept b n nd =
      elim (unlink_node rb b n nd nd.proc) as (λ r. Kept n nd (r >>= λ b'. ok (b', true))) [
        | ok b' ↦ goes
        | bug ↦ crashes
      ]

  drop_node-Kept :
      (b : Binder) (n : ℕ) (nd : BinderNode) → b.nodes n ≡ some nd → Kept n nd (drop_node rb b n nd)
  unfolding drop_node
  drop_node-Kept b n nd e =
      if_both (Kept n nd) (is_some nd.proc && (nd.has_strong_ref || nd.has_weak_ref))
        (elim nd.proc
          as (λ o. Kept n nd (elim o [ none ↦ bug | some p ↦ ok (notify_owner b n nd p, false) ])) [
            | none ↦ crashes
            | some p ↦ stays (notify_owner-HasCounts b n nd p e)
          ])
        (if_both (Kept n nd) (unreferenced nd) (unlink-Kept b n nd)
          (stays (record { found = nd; holds = e; same = same_counts nd nd.work_entry })))

  binder_dec_node_nilocked-Kept :
      (b : Binder) (n : ℕ) (nd : BinderNode) (strong internal : Bool)
      → b.nodes n ≡ some nd
      → Kept n (dec_counts nd strong internal) (binder_dec_node_nilocked rb b n strong internal)
  unfolding binder_dec_node_nilocked
  binder_dec_node_nilocked-Kept b n nd strong internal e =
      let nd' = dec_counts nd strong internal in
      rw (e, with_node)
        (if_both (Kept n nd') (still_held nd' strong) (stays (HasCounts-self b n nd'))
          (drop_node-Kept (set_node b n nd') n nd' (ground arith)))

  -- A count that is taken and given back leaves the node's counts as they were, unless giving it
  -- back lets the node go.
  pub binder_dec_node_nilocked-binder_inc_node :
      (b b' b'' : Binder) (n : ℕ) (nd : BinderNode) (strong internal : Bool) (l : Option WorkList)
      → IsSmall nd
      → b.nodes n ≡ some nd
      → binder_inc_node b n strong internal l ≡ ok (b', none)
      → binder_dec_node_nilocked rb b' n strong internal ≡ ok (b'', false)
      → HasCounts b'' n nd
  binder_dec_node_nilocked-binder_inc_node b b' b'' n nd strong internal l small e up down =
      let r = binder_inc_node-HasCounts b b' n nd strong internal l e up in
      let k : Kept n (dec_counts r.found strong internal) (ok (b'', false)) =
        subst (Kept n (dec_counts r.found strong internal)) down
          (binder_dec_node_nilocked-Kept b' n r.found strong internal r.holds) in
      let h = Kept-HasCounts k in
      record {
        found = h.found;
        holds = h.holds;
        same =
            SameCounts-trans nd (dec_counts r.found strong internal) h.found
              (dec_counts-raised nd r.found strong internal small r.same) h.same;
      }
