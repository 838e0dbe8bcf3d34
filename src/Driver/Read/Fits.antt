-- ===== src/Driver/Read/Fits.antt =====
-- Where the returns stand in the read buffer.
use headless_testing.Base.{
  ℕ, ◌+◌, ◌*◌, ◌≤◌, Bool, true, false, not, List, [], ◌∷◌, ◌++◌, length, arith,
}
use headless_testing.Kernel.{Always, stops, gives, Always-bug_on, Always-option}
use headless_testing.RbTree.{RbLib}
use headless_testing.Driver.State.{Binder}
use headless_testing.Driver.Transaction.{is_top}
use headless_testing.Driver.Counting.{
  NodeReturn, is_strong, is_weak, node_returns, put_returns, read_node,
}
use headless_testing.Driver.Read.Returns.{
  Reading, Return, node_return, return_size, append_return, append_nodes,
}

-- The returns stand one after the other, from an offset up to another.
pub data Laid : ℕ → List (ℕ × Return) → ℕ → Type 0 where
  laid_end : {a : ℕ} → Laid a [] a
  laid :
      {a e : ℕ} {x : Return} {rs : List (ℕ × Return)}
      → Laid (a + return_size x) rs e
      → Laid a ((a, x) ∷ rs) e

pub Laid-append :
    {a e : ℕ} {rs : List (ℕ × Return)} (x : Return)
    → Laid a rs e
    → Laid a (rs ++ (e, x) ∷ []) (e + return_size x)
Laid-append x laid_end = laid laid_end
Laid-append x (laid l) = laid (Laid-append x l)

module _ (size consumed : ℕ) where
  -- What was put begins at `consumed` and ends within the buffer.
  pub record IsWithin (r : Reading) : Type 0 where
    pub in_order : Laid consumed r.returns r.ptr
    pub fits : r.ptr ≤ size

  pub append_return-IsWithin :
      (r : Reading) (b : Binder) (x : Return)
      → IsWithin r
      → r.ptr + return_size x ≤ size
      → IsWithin (append_return r b x)
  append_return-IsWithin r b x w h = record { in_order = Laid-append x w.in_order; fits = h }

  pub append_nodes-IsWithin :
      (r : Reading) (b : Binder) (xs : List NodeReturn) (node_ptr node_cookie : ℕ)
      → IsWithin r
      → r.ptr + 20 * length xs ≤ size
      → IsWithin (append_nodes r b xs node_ptr node_cookie)
  append_nodes-IsWithin r b [] node_ptr node_cookie w h = record {
    in_order = w.in_order;
    fits = w.fits;
  }
  append_nodes-IsWithin r b (x ∷ xs) node_ptr node_cookie w h =
      append_nodes-IsWithin (append_return r b (node_return x node_ptr node_cookie)) b xs node_ptr
        node_cookie
        (append_return-IsWithin r b (node_return x node_ptr node_cookie) w (omega (arith, h)))
        (omega (arith, h))

-- At most two returns are due for a node.
pub node_returns-few :
    (strong weak has_strong_ref has_weak_ref : Bool)
    → length (node_returns strong weak has_strong_ref has_weak_ref) ≤ 2
unfolding node_returns
node_returns-few true true true true = omega arith
node_returns-few true true true false = omega arith
node_returns-few true true false true = omega arith
node_returns-few true true false false = omega arith
node_returns-few true false true true = omega arith
node_returns-few true false true false = omega arith
node_returns-few true false false true = omega arith
node_returns-few true false false false = omega arith
node_returns-few false true true true = omega arith
node_returns-few false true true false = omega arith
node_returns-few false true false true = omega arith
node_returns-few false true false false = omega arith
node_returns-few false false true true = omega arith
node_returns-few false false true false = omega arith
node_returns-few false false false true = omega arith
node_returns-few false false false false = omega arith

pub length-put_returns :
    (put_user : NodeReturn → Bool) (xs : List NodeReturn)
    → length (put_returns put_user xs).0 ≤ length xs
unfolding put_returns
length-put_returns put_user [] = omega arith
length-put_returns put_user (x ∷ xs) = let ih = length-put_returns put_user xs in ground (arith, ih)

pub read_node-few :
    (rb : RbLib) (put_user : NodeReturn → Bool) (b : Binder) (p n : ℕ)
    → Always (λ x. length x.1 ≤ 2) (read_node rb put_user b p n)
unfolding read_node
read_node-few rb put_user b p n = Always-option (b.nodes n) stops (λ nd e.
    Always-bug_on (not (is_top nd.proc p)) (
      let due = node_returns (is_strong nd) (is_weak nd) nd.has_strong_ref nd.has_weak_ref in
      let few = node_returns-few (is_strong nd) (is_weak nd) nd.has_strong_ref nd.has_weak_ref in
      let put = length-put_returns put_user due in gives (omega (arith, few, put))))
