-- ===== src/Alloc/NewBuf/BestFit.antt =====
-- The best-fit walk of `binder_alloc_new_buf_locked`.
use headless_testing.Base.{
  ℕ, ◌≡◌, ◌<◌, ◌≤◌, refl, Bool, true, false, Option, some, List, [], ◌∷◌, ◌++◌, arith, count-append,
  All, All-append, All-map, ltb, Bool-cases, inl, inr, ◌⊎◌,
}
use headless_testing.Kernel.{ok}
use headless_testing.RbTree.{Tree, leaf, node, in_order}
use headless_testing.RbTree.Order.{Ascending, Has, All-Has, All-left, All-right, Around, around}
use headless_testing.Alloc.NewBuf.{Fit, best_fit_from}

module _ (is_free : ℕ → Bool) (size_of : ℕ → ℕ) (size : ℕ) where
  -- Element `d` fits, and every element that fits is at least as large.
  pub record IsBest (xs : List ℕ) (d : ℕ) : Type 0 where
    pub member : Has d xs
    pub fits : size ≤ size_of d
    pub smallest : All (λ x. (size_of x < size) ⊎ (size_of d ≤ size_of x)) xs

  -- All that stands before `d` is too small.
  abbrev pub LeftSmall : ℕ → List ℕ → Type 0
  LeftSmall d [] = ⊥
  LeftSmall d (x ∷ xs) = (x ≡ d) ⊎ ((size_of x < size) × LeftSmall d xs)

  LeftSmall-append : (d : ℕ) (xs ys : List ℕ) → LeftSmall d xs → LeftSmall d (xs ++ ys)
  LeftSmall-append d [] ys h = absurd h
  LeftSmall-append d (x ∷ xs) ys (inl e) = inl e
  LeftSmall-append d (x ∷ xs) ys (inr (lt, h)) = inr (lt, LeftSmall-append d xs ys h)

  append-LeftSmall :
      (d : ℕ) (xs ys : List ℕ)
      → All (λ x. size_of x < size) xs
      → LeftSmall d ys
      → LeftSmall d (xs ++ ys)
  append-LeftSmall d [] ys h k = k
  append-LeftSmall d (x ∷ xs) ys h k = inr (h.0, append-LeftSmall d xs ys h.1 k)

  -- What the walk ends with over the elements `xs`, if it comes with the candidate `best`.
  pub data Ends (best : Option ℕ) (xs : List ℕ) (fit : Fit) : Type 0 where
    nothing :
        fit.best_fit ≡ best → fit.exact ≡ false → All (λ x. size_of x < size) xs → Ends best xs fit
    found :
        (d : ℕ)
        → fit.best_fit ≡ some d
        → (fit.exact ≡ true → size_of d ≡ size)
        → (fit.exact ≡ false → (size < size_of d) × LeftSmall d xs)
        → IsBest xs d
        → Ends best xs fit

  abbrev IsSmall : ℕ → Type 0
  IsSmall x = size_of x < size

  abbrev IsBeaten : ℕ → ℕ → Type 0
  IsBeaten d x = (size_of x < size) ⊎ (size_of d ≤ size_of x)

  -- The candidate left of the walk's end is beaten by nothing further right.
  went_left :
      (xs : List ℕ) (x : ℕ) (ys : List ℕ) (best : Option ℕ) (fit : Fit)
      → Around size_of xs x ys
      → size < size_of x
      → Ends (some x) xs fit
      → Ends best (xs ++ x ∷ ys) fit
  went_left xs x ys best fit a lt (nothing e ex small) =
      found x e (λ t. absurd (false_true ex t))
        (λ t. (lt, append-LeftSmall x xs (x ∷ ys) small (inl refl)))
        (record {
          member = ground (arith, count-append x xs (x ∷ ys));
          fits = omega arith;
          smallest =
              All-append (IsBeaten x) xs (x ∷ ys) (All-map (λ y s. inl s) xs small)
                (inr (omega arith), All-map (λ y s. inr s) ys a.mid_le);
        })
    where
      false_true : {b : Bool} → b ≡ false → b ≡ true → ⊥
      false_true p q = cc
  went_left xs x ys best fit a lt (found d e ex nex b) =
      let le : size_of d ≤ size_of x =
        All-Has (λ y. size_of y ≤ size_of x) d xs a.le_mid b.member in
      found d e ex (λ t. ((nex t).0, LeftSmall-append d xs (x ∷ ys) (nex t).1))
        (record {
          member = omega (arith, count-append d xs (x ∷ ys), b.member);
          fits = b.fits;
          smallest = All-append (IsBeaten d) xs (x ∷ ys) b.smallest (
            inr le,
            All-map (λ y (s : size_of x ≤ size_of y). inr (omega (arith, le))) ys a.mid_le,
          );
        })

  went_right :
      (xs : List ℕ) (x : ℕ) (ys : List ℕ) (best : Option ℕ) (fit : Fit)
      → Around size_of xs x ys
      → size_of x < size
      → Ends best ys fit
      → Ends best (xs ++ x ∷ ys) fit
  went_right xs x ys best fit a lt (nothing e ex small) = nothing e ex (
      All-append IsSmall xs (x ∷ ys)
        (All-map (λ y (s : size_of y ≤ size_of x). omega (arith, lt)) xs a.le_mid) (lt, small))
  went_right xs x ys best fit a lt (found d e ex nex b) =
      found d e ex
        (λ t. (
          (nex t).0,
          append-LeftSmall d xs (x ∷ ys)
              (All-map (λ y (s : size_of y ≤ size_of x). omega (arith, lt)) xs a.le_mid)
              (inr (lt, (nex t).1)),
        ))
        (record {
          member = ground (arith, count-append d xs (x ∷ ys), b.member);
          fits = b.fits;
          smallest =
              All-append (IsBeaten d) xs (x ∷ ys)
                (All-map (λ y (s : size_of y ≤ size_of x). inl (omega (arith, lt))) xs a.le_mid)
                (inl lt, b.smallest);
        })

  stopped :
      (xs : List ℕ) (x : ℕ) (ys : List ℕ) (best : Option ℕ)
      → Around size_of xs x ys
      → size_of x ≡ size
      → Ends best (xs ++ x ∷ ys) (record { best_fit = some x; exact = true })
  stopped xs x ys best a eq =
      found x refl (λ _. eq) (λ t. absurd (cc))
        (record {
          member = ground (arith, count-append x xs (x ∷ ys));
          fits = omega (arith, eq);
          smallest =
              All-append (IsBeaten x) xs (x ∷ ys)
                (All-map (λ y (s : size_of y ≤ size_of x). small_or y s) xs a.le_mid)
                (inr (omega arith), All-map (λ y s. inr s) ys a.mid_le);
        })
    where
      small_or : (y : ℕ) → size_of y ≤ size_of x → IsBeaten x y
      small_or y s = ground (arith, eq)

  -- Over free buffers in a tree by ascending size, the walk ends without a BUG. It keeps the
  -- candidate that it came with only if every buffer is too small; otherwise it ends with a buffer
  -- that fits, such that no other that fits is smaller. That one has exactly the size if the walk
  -- stopped at it, and else is larger, with only buffers that are too small before it.
  pub Ends-best_fit_from :
      (t : Tree) (best : Option ℕ)
      → Ascending size_of (in_order t)
      → All (λ x. is_free x ≡ true) (in_order t)
      → (fit : Fit) × (best_fit_from is_free size_of size best t ≡ ok fit)
        × Ends best (in_order t) fit
  unfolding best_fit_from
  Ends-best_fit_from leaf best a f =
      (record { best_fit = best; exact = false }, refl, nothing refl refl tt)
  Ends-best_fit_from (node l x r) best a f =
      let parts = around size_of (in_order l) x (in_order r) a in
      let fx = All-right (λ y. is_free y ≡ true) (in_order l) (x ∷ in_order r) f in
      elim (Bool-cases (ltb size (size_of x))) [
        | inl lt ↦
            let (fit, e, ends) =
              Ends-best_fit_from l (some x) parts.before
                (All-left _ (in_order l) (x ∷ in_order r) f) in
            (
              fit,
              rw (fx.0, lt, best_fit_from) e,
              went_left (in_order l) x (in_order r) best fit parts (ground arith) ends,
            )
        | inr ge ↦ elim (Bool-cases (ltb (size_of x) size)) [
          | inl gt ↦
              let (fit, e, ends) = Ends-best_fit_from r best parts.after fx.1 in
              (
                fit,
                rw (fx.0, ge, gt, best_fit_from) e,
                went_right (in_order l) x (in_order r) best fit parts (ground arith) ends,
              )
          | inr le ↦ (
            record { best_fit = some x; exact = true },
            rw (fx.0, ge, le, best_fit_from),
            stopped (in_order l) x (in_order r) best parts (ground arith),
          )
        ]
      ]
