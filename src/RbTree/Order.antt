-- ===== src/RbTree/Order.antt =====
-- What the walks of `RbTree` do to a tree whose in-order sequence ascends.
use headless_testing.Base.{
  ℕ, ◌<◌, ◌≤◌, List, [], ◌∷◌, ◌++◌, arith, count, All, All-append, All-map, Bool-cases, inl, inr,
  ◌==◌, erase, rw_eq,
}

-- The elements' keys ascend along the list; equal keys may stand together.
abbrev pub Ascending : (ℕ → ℕ) → List ℕ → Type 0
Ascending key [] = Unit {0}
Ascending key (x ∷ xs) = All (λ y. key x ≤ key y) xs × Ascending key xs

-- Membership, as the tactics read it.
abbrev pub Has : ℕ → List ℕ → Type 0
Has a xs = 0 < count a xs

pub All-Has {κ} : (P : ℕ → Type κ) (a : ℕ) (xs : List ℕ) → All P xs → Has a xs → P a
All-Has P a [] h m = absurd (omega arith)
All-Has P a (x ∷ xs) h m = elim (Bool-cases (x == a)) [
  | inl e ↦ rw_eq P (ground arith) h.0
  | inr n ↦ All-Has P a xs h.1 (ground arith)
]

pub All-erase {κ} : (P : ℕ → Type κ) (a : ℕ) (xs : List ℕ) → All P xs → All P (erase a xs)
All-erase P a [] h = tt
All-erase P a (x ∷ xs) h = elim (Bool-cases (x == a)) [
  | inl e ↦ rw e h.1
  | inr n ↦ rw n (h.0, All-erase P a xs h.1)
]

module _ {κ} (P : ℕ → Type κ) where
  pub All-left : (xs ys : List ℕ) → All P (xs ++ ys) → All P xs
  All-left [] ys h = tt
  All-left (x ∷ xs) ys h = (h.0, All-left xs ys h.1)

  pub All-right : (xs ys : List ℕ) → All P (xs ++ ys) → All P ys
  All-right [] ys h = h
  All-right (x ∷ xs) ys h = All-right xs ys h.1

module _ (key : ℕ → ℕ) where
  pub Ascending-erase : (a : ℕ) (xs : List ℕ) → Ascending key xs → Ascending key (erase a xs)
  Ascending-erase a [] h = tt
  Ascending-erase a (x ∷ xs) h = elim (Bool-cases (x == a)) [
    | inl e ↦ rw e h.1
    | inr n ↦ rw n (All-erase _ a xs h.0, Ascending-erase a xs h.1)
  ]

  pub Ascending-append :
      (xs : List ℕ) (y : ℕ) (ys : List ℕ)
      → Ascending key xs
      → Ascending key (y ∷ ys)
      → All (λ x. key x ≤ key y) xs
      → Ascending key (xs ++ y ∷ ys)
  Ascending-append [] y ys a b h = b
  Ascending-append (x ∷ xs) y ys a b h = (
    All-append _ xs (y ∷ ys) a.0
        (h.0, All-map (λ z (p : key y ≤ key z). omega (arith, h.0)) ys b.0),
    Ascending-append xs y ys a.1 b h.1,
  )

  -- The three parts of a sequence around one of its elements.
  pub record Around (xs : List ℕ) (y : ℕ) (ys : List ℕ) : Type 0 where
    pub before : Ascending key xs
    pub after : Ascending key ys
    pub le_mid : All (λ x. key x ≤ key y) xs
    pub mid_le : All (λ z. key y ≤ key z) ys

  pub around : (xs : List ℕ) (y : ℕ) (ys : List ℕ) → Ascending key (xs ++ y ∷ ys) → Around xs y ys
  around [] y ys h = record { before = tt; after = h.1; le_mid = tt; mid_le = h.0 }
  around (x ∷ xs) y ys h =
      let rest = around xs y ys h.1 in
      record {
        before = (All-left _ xs (y ∷ ys) h.0, rest.before);
        after = rest.after;
        le_mid = ((All-right _ xs (y ∷ ys) h.0).0, rest.le_mid);
        mid_le = rest.mid_le;
      }
