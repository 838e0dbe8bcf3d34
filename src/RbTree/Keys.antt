-- ===== src/RbTree/Keys.antt =====
-- Search and insertion in a tree whose keys are all different.
use headless_testing.Base.{
  ℕ, ◌≡◌, ◌≢◌, ◌<◌, ◌+◌, refl, Option, none, some, List, [], ◌∷◌, ◌++◌, arith, count, count-append,
  All, All-append, All-map, Bool-cases, inl, inr, ◌==◌, Trichotomy, trichotomy, below, same, above,
  erase, sym,
}
use headless_testing.Kernel.{ok}
use headless_testing.RbTree.{Tree, leaf, node, in_order, Way, toward, link, search_tree}
use headless_testing.RbTree.Order.{Has, All-left, All-right, All-erase}

-- The elements' keys rise along the list.
abbrev pub Rising : (ℕ → ℕ) → List ℕ → Type 0
Rising key [] = Unit {0}
Rising key (x ∷ xs) = All (λ y. key x < key y) xs × Rising key xs

module _ (key : ℕ → ℕ) where
  pub Rising-append :
      (xs : List ℕ) (y : ℕ) (ys : List ℕ)
      → Rising key xs
      → Rising key (y ∷ ys)
      → All (λ x. key x < key y) xs
      → Rising key (xs ++ y ∷ ys)
  Rising-append [] y ys a b h = b
  Rising-append (x ∷ xs) y ys a b h = (
    All-append _ xs (y ∷ ys) a.0
        (h.0, All-map (λ z (p : key y < key z). omega (arith, h.0)) ys b.0),
    Rising-append xs y ys a.1 b h.1,
  )

  pub record Amid (xs : List ℕ) (y : ℕ) (ys : List ℕ) : Type 0 where
    pub before : Rising key xs
    pub after : Rising key ys
    pub lt_mid : All (λ x. key x < key y) xs
    pub mid_lt : All (λ z. key y < key z) ys

  pub amid : (xs : List ℕ) (y : ℕ) (ys : List ℕ) → Rising key (xs ++ y ∷ ys) → Amid xs y ys
  amid [] y ys h = record { before = tt; after = h.1; lt_mid = tt; mid_lt = h.0 }
  amid (x ∷ xs) y ys h =
      let rest = amid xs y ys h.1 in
      record {
        before = (All-left _ xs (y ∷ ys) h.0, rest.before);
        after = rest.after;
        lt_mid = ((All-right _ xs (y ∷ ys) h.0).0, rest.lt_mid);
        mid_lt = rest.mid_lt;
      }

  pub Rising-erase : (a : ℕ) (xs : List ℕ) → Rising key xs → Rising key (erase a xs)
  Rising-erase a [] h = tt
  Rising-erase a (x ∷ xs) h = elim (Bool-cases (x == a)) [
    | inl e ↦ rw e h.1
    | inr n ↦ rw n (All-erase _ a xs h.0, Rising-erase a xs h.1)
  ]

module _ (key : ℕ → ℕ) (way : ℕ → Way) (k : ℕ) where
  -- The walk compares `k` with the keys of the elements.
  abbrev pub Compares : List ℕ → Type 0
  Compares = All (λ x. way x ≡ toward k (key x))

  toward_cases : (x : ℕ) → Trichotomy k (key x)
  toward_cases x = trichotomy k (key x)

  -- What a search finds: the element with the key, or nothing where none has it.
  pub data Finds (xs : List ℕ) : Option ℕ → Type 0 where
    found : (x : ℕ) → Has x xs → key x ≡ k → Finds xs (some x)
    missing : All (λ x. key x ≢ k) xs → Finds xs none

  in_left :
      (xs : List ℕ) (x : ℕ) (ys : List ℕ) {o : Option ℕ}
      → Amid key xs x ys
      → k < key x
      → Finds xs o
      → Finds (xs ++ x ∷ ys) o
  in_left xs x ys m lt (found y h e) = found y (omega (arith, h, count-append y xs (x ∷ ys))) e
  in_left xs x ys m lt (missing ne) = missing (
      All-append _ xs (x ∷ ys) ne (
        (λ e. omega (arith, lt)),
        All-map {Q = λ z. key z ≢ k} (λ z (p : key x < key z) e. omega (arith, lt)) ys m.mid_lt,
      ))

  in_right :
      (xs : List ℕ) (x : ℕ) (ys : List ℕ) {o : Option ℕ}
      → Amid key xs x ys
      → key x < k
      → Finds ys o
      → Finds (xs ++ x ∷ ys) o
  in_right xs x ys m lt (found y h e) = found y (ground (arith, h, count-append y xs (x ∷ ys))) e
  in_right xs x ys m lt (missing ne) = missing (
      All-append _ xs (x ∷ ys)
        (All-map {Q = λ z. key z ≢ k} (λ z (p : key z < key x) e. omega (arith, lt)) xs m.lt_mid)
        ((λ e. omega (arith, lt)), ne))

  -- In a tree with rising keys the walk ends without a BUG and finds exactly the element with the
  -- key it looks for.
  pub search_tree-Finds :
      (t : Tree)
      → Rising key (in_order t)
      → Compares (in_order t)
      → (o : Option ℕ) × (search_tree way t ≡ ok o) × Finds (in_order t) o
  unfolding search_tree
  search_tree-Finds leaf r c = (none, refl, missing tt)
  search_tree-Finds (node l x t) r c =
      let m = amid key (in_order l) x (in_order t) r in
      let cx = All-right _ (in_order l) (x ∷ in_order t) c in
      elim (toward_cases x) [
        | below lt ↦
            let (o, e, f) =
              search_tree-Finds l m.before (All-left _ (in_order l) (x ∷ in_order t) c) in
            (o, ground (arith, cx.0, e), in_left (in_order l) x (in_order t) m lt f)
        | same eq ↦ (
          some x,
          ground (arith, cx.0),
          found x (ground (arith, count-append x (in_order l) (x ∷ in_order t))) (ground arith),
        )
        | above gt ↦
            let (o, e, f) = search_tree-Finds t m.after cx.1 in
            (o, ground (arith, cx.0, e), in_right (in_order l) x (in_order t) m gt f)
      ]

module _ (key : ℕ → ℕ) (way : ℕ → Way) (new : ℕ) where
  -- The tree with a new element: its keys still rise, and it holds one element more.
  pub record Inserted (xs ys : List ℕ) : Type 1 where
    pub rising : Rising key ys
    pub counts : (a : ℕ) → count a ys ≡ count a xs + count a (new ∷ [])
    pub bounded : (P : ℕ → Type 0) → P new → All P xs → All P ys

  insert_left :
      (xs : List ℕ) (x : ℕ) (ys zs : List ℕ)
      → Amid key xs x ys
      → key new < key x
      → Inserted xs zs
      → Inserted (xs ++ x ∷ ys) (zs ++ x ∷ ys)
  insert_left xs x ys zs m lt i = record {
    rising = Rising-append key zs x ys i.rising (m.mid_lt, m.after) (i.bounded _ lt m.lt_mid);
    counts = λ a. omega (arith, i.counts a, count-append a xs (x ∷ ys), count-append a zs (x ∷ ys));
    bounded = λ P p h.
        All-append P zs (x ∷ ys) (i.bounded P p (All-left P xs (x ∷ ys) h))
          (All-right P xs (x ∷ ys) h);
  }

  insert_right :
      (xs : List ℕ) (x : ℕ) (ys zs : List ℕ)
      → Amid key xs x ys
      → key x < key new
      → Inserted ys zs
      → Inserted (xs ++ x ∷ ys) (xs ++ x ∷ zs)
  insert_right xs x ys zs m lt i = record {
    rising = Rising-append key xs x zs m.before (i.bounded _ lt m.mid_lt, i.rising) m.lt_mid;
    counts =
        λ a. ground (arith, i.counts a, count-append a xs (x ∷ ys), count-append a xs (x ∷ zs));
    bounded = λ P p h.
        let r = All-right P xs (x ∷ ys) h in
        All-append P xs (x ∷ zs) (All-left P xs (x ∷ ys) h) (r.0, i.bounded P p r.1);
  }

  -- With a key that no element has, the walk finds a place without a BUG, and the new tree holds
  -- the elements and the new one with keys that still rise.
  pub link-Inserted :
      (t : Tree)
      → Rising key (in_order t)
      → All (λ x. (key x ≢ key new) × (way x ≡ toward (key new) (key x))) (in_order t)
      → (t' : Tree) × (link way new t ≡ ok t') × Inserted (in_order t) (in_order t')
  unfolding link
  link-Inserted leaf r c = (
    node leaf new leaf,
    refl,
    record { rising = (tt, tt); counts = λ a. omega arith; bounded = λ P p h. (p, tt) },
  )
  link-Inserted (node l x t) r c =
      let m = amid key (in_order l) x (in_order t) r in
      let cx = All-right _ (in_order l) (x ∷ in_order t) c in
      elim (trichotomy (key new) (key x)) [
        | below lt ↦
            let (l', e, i) =
              link-Inserted l m.before (All-left _ (in_order l) (x ∷ in_order t) c) in
            (
              node l' x t,
              ground (arith, cx.0.1, e),
              insert_left (in_order l) x (in_order t) (in_order l') m lt i,
            )
        | same eq ↦ absurd (cx.0.0 (sym eq))
        | above gt ↦
            let (t', e, i) = link-Inserted t m.after cx.1 in
            (
              node l x t',
              ground (arith, cx.0.1, e),
              insert_right (in_order l) x (in_order t) (in_order t') m gt i,
            )
      ]
