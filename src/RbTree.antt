-- ===== src/RbTree.antt =====
-- The kernel's red-black trees, as far as binder.c and binder_alloc.c see them: the links that the
-- code walks, and rb_link_node. Rebalancing and erasure are the kernel's (lib/rbtree.c, which is
-- not in the repository): they are parameters that keep the in-order sequence.
pub mod Order
pub mod Keys
pub mod Plain
use headless_testing.Base.{
  ℕ, ◌≡◌, Bool, true, false, Option, none, some, List, [], ◌∷◌, ◌++◌, erase, if◌then◌else◌, ltb,
}
use headless_testing.Kernel.{Run, ok, bug, ◌>>=◌}

-- An element is named by a number: a buffer by its address, a reference or a node by its id.
pub data Tree : Type 0 where
  leaf : Tree
  node : Tree → ℕ → Tree → Tree

-- `rb_first` and `rb_next` visit the elements in this order.
abbrev pub in_order : Tree → List ℕ
in_order leaf = []
in_order (node l x r) = in_order l ++ x ∷ in_order r

abbrev pub rb_empty_root : Tree → Bool
rb_empty_root leaf = true
rb_empty_root (node l x r) = false

abbrev pub rb_first : Tree → Option ℕ
rb_first t = elim (in_order t) [ [] ↦ none | x ∷ xs ↦ some x ]

-- What a walk does at an element.
pub data Way : Type 0 where
  left right here crash : Way

-- The two-sided comparison that most walks make.
abbrev pub toward : ℕ → ℕ → Way
toward k x = if ltb k x then left else if ltb x k then right else here

-- The walk to a free place, and `rb_link_node` there. What the comparison
-- calls `here` or `crash` is a BUG().
unfoldable pub link : (ℕ → Way) → ℕ → Tree → Run Tree
link way new leaf = ok (node leaf new leaf)
link way new (node l x r) = elim (way x) [
  | left ↦ link way new l >>= λ l'. ok (node l' x r)
  | right ↦ link way new r >>= λ r'. ok (node l x r')
  | here ↦ bug
  | crash ↦ bug
]

-- The walk that looks for an element.
unfoldable pub search_tree : (ℕ → Way) → Tree → Run (Option ℕ)
search_tree way leaf = ok none
search_tree way (node l x r) = elim (way x) [
  | left ↦ search_tree way l
  | right ↦ search_tree way r
  | here ↦ ok (some x)
  | crash ↦ bug
]

-- What the code relies on of lib/rbtree.c.
pub record RbLib : Type 0 where
  pub rb_insert_color : ℕ → Tree → Tree
  pub rb_erase : ℕ → Tree → Tree
  pub in_order-rb_insert_color : (x : ℕ) (t : Tree) → in_order (rb_insert_color x t) ≡ in_order t
  pub in_order-rb_erase : (x : ℕ) (t : Tree) → in_order (rb_erase x t) ≡ erase x (in_order t)
