-- ===== src/Driver/Node/Gone.antt =====
-- When a node may go.
use headless_testing.Base.{ℕ, ◌≡◌, refl, Bool, true, false, none, some, List, [], ◌∷◌, arith, ◌⊎◌}
use headless_testing.Kernel.{ok}
use headless_testing.RbTree.{RbLib}
use headless_testing.Driver.State.{Binder, BinderNode, set_node}
use headless_testing.Driver.Node.{binder_dec_node_nilocked, dec_counts, drop_node, no_refs}

-- What holds of a node that the caller of `binder_dec_node_nilocked` must free.
pub record IsGone (nd : BinderNode) : Type 0 where
  pub no_references : nd.refs ≡ []
  pub no_local_strong : nd.local_strong_refs ≡ 0
  pub no_local_weak : nd.local_weak_refs ≡ 0
  pub no_tmp : nd.tmp_refs ≡ 0
  pub owner_not_told : (nd.proc ≡ none) ⊎ ((nd.has_strong_ref ≡ false) × (nd.has_weak_ref ≡ false))

no_refs-nil : (rs : List ℕ) → no_refs rs ≡ true → rs ≡ []
no_refs-nil [] h = refl
no_refs-nil (r ∷ rs) h = cc

module _ (rb : RbLib) where
  drop_node-IsGone :
      (b b' : Binder) (n : ℕ) (nd : BinderNode) → drop_node rb b n nd ≡ ok (b', true) → IsGone nd
  unfolding drop_node
  drop_node-IsGone b b' n nd h = record {
    no_references = no_refs-nil nd.refs (ground arith);
    no_local_strong = ground arith;
    no_local_weak = ground arith;
    no_tmp = ground arith;
    owner_not_told = ground arith;
  }

  -- A decrement asks the caller to free the node only if then no reference, no local count and no
  -- temporary count is left, and the owner is dead or was never told of the node's references.
  pub binder_dec_node_nilocked-IsGone :
      (b b' : Binder) (n : ℕ) (nd : BinderNode) (strong internal : Bool)
      → b.nodes n ≡ some nd
      → binder_dec_node_nilocked rb b n strong internal ≡ ok (b', true)
      → IsGone (dec_counts nd strong internal)
  unfolding binder_dec_node_nilocked
  binder_dec_node_nilocked-IsGone b b' n nd strong internal e h =
      drop_node-IsGone (set_node b n (dec_counts nd strong internal)) b' n
        (dec_counts nd strong internal) (ground arith)
