-- ===== src/RbTree/Plain.antt =====
-- An instance of `RbLib`: trees that are never rebalanced.
use mathlib.Core.Path.{ap}
use headless_testing.Base.{ℕ, ◌≡◌, refl, List, [], ◌∷◌, erase}
use headless_testing.RbTree.{Tree, leaf, node, in_order, RbLib}

abbrev pub of_list : List ℕ → Tree
of_list [] = leaf
of_list (x ∷ xs) = node leaf x (of_list xs)

pub in_order-of_list : (xs : List ℕ) → in_order (of_list xs) ≡ xs
in_order-of_list [] = refl
in_order-of_list (x ∷ xs) = ap (λ ys. x ∷ ys) (in_order-of_list xs)

abbrev pub plain : RbLib
plain = record {
  rb_insert_color = λ x t. t;
  rb_erase = λ x t. of_list (erase x (in_order t));
  in_order-rb_insert_color = λ x t. refl;
  in_order-rb_erase = λ x t. in_order-of_list (erase x (in_order t));
}
