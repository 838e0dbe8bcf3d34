-- ===== src/Objects/Fixups.antt =====
-- `binder_validate_fixup` against the rule that its comment states.
use headless_testing.Base.{
  ℕ, zero, suc, ◌≤◌, ◌<◌, ◌≡◌, ◌≢◌, Bool, true, false, Option, some, arith, add64, leb, ◌==◌,
  Bool-cases, inl, inr,
}
use headless_testing.Objects.{ObjectBuffer, fixup_walk}

module _ (b : ObjectBuffer) (start : ℕ → ℕ) (target fixup_offset : ℕ) where
  -- A fixup in `target` at `fixup_offset` is in order, seen from the object at `last`, where the
  -- least offset is `min_offset`: `last` is the target and the offset is large enough, or `last`
  -- has a parent from which it is in order behind `last`'s own pointer.
  pub data InOrder : ℕ → ℕ → Type 0 where
    at_target :
        {last min_offset : ℕ} → last ≡ target → min_offset ≤ fixup_offset → InOrder last min_offset
    in_parent :
        {last min_offset : ℕ}
        → last ≢ target
        → (b.object_at last).has_parent ≡ true
        → InOrder (start (b.object_at last).parent) (add64 (b.object_at last).parent_offset 8)
        → InOrder last min_offset

  -- Parents stand before their children in the offset array, up to index `i`.
  abbrev pub ParentsFirst : ℕ → Type 0
  ParentsFirst i =
      (j : ℕ)
      → j ≤ i
      → (b.object_at (start j)).has_parent ≡ true
      → (b.object_at (start j)).parent < j

  -- How the walk answers, given enough fuel.
  pub data Decides (last min_offset : ℕ) : Option Bool → Type 0 where
    allowed : InOrder last min_offset → Decides last min_offset (some true)
    refused : (InOrder last min_offset → ⊥) → Decides last min_offset (some false)

  le_of_target :
      {last min_offset : ℕ} → InOrder last min_offset → last ≡ target → min_offset ≤ fixup_offset
  le_of_target (at_target e le) h = le
  le_of_target (in_parent ne p o) h = absurd (ne h)

  parent_of_other :
      {last min_offset : ℕ}
      → InOrder last min_offset
      → last ≢ target
      → ((b.object_at last).has_parent ≡ true)
        × InOrder (start (b.object_at last).parent) (add64 (b.object_at last).parent_offset 8)
  parent_of_other (at_target e le) h = absurd (h e)
  parent_of_other (in_parent ne p o) h = (p, o)

  decide_target :
      (last min_offset : ℕ)
      → last ≡ target
      → Decides last min_offset (some (leb min_offset fixup_offset))
  decide_target last min_offset e = elim (Bool-cases (leb min_offset fixup_offset)) [
    | inl le ↦ rw le (allowed (at_target e (ground arith)))
    | inr gt ↦ rw gt (refused λ h. ground (arith, le_of_target h e))
  ]

  decide_parent :
      (last min_offset : ℕ) (r : Option Bool)
      → last ≢ target
      → (b.object_at last).has_parent ≡ true
      → Decides (start (b.object_at last).parent) (add64 (b.object_at last).parent_offset 8) r
      → Decides last min_offset r
  decide_parent last min_offset r ne p (allowed o) = allowed (in_parent ne p o)
  decide_parent last min_offset r ne p (refused no_order) =
      refused λ h. no_order (parent_of_other h ne).1

  -- With parents before their children in the offset array, and more fuel than the index of the
  -- object it starts from, the walk ends, and it allows a fixup exactly if it is in order.
  pub fixup_walk-Decides :
      (fuel i min_offset : ℕ)
      → ParentsFirst i
      → i < fuel
      → Decides
          (start i)
          min_offset
          (fixup_walk b start target fixup_offset fuel (start i) min_offset)
  unfolding fixup_walk
  fixup_walk-Decides zero i min_offset pf h = absurd (omega arith)
  fixup_walk-Decides (suc fuel) i min_offset pf h = elim (Bool-cases (start i == target)) [
    | inl e ↦ rw (e, fixup_walk) (decide_target (start i) min_offset (ground arith))
    | inr ne ↦ elim (Bool-cases (b.object_at (start i)).has_parent) [
      | inr no_parent ↦
          rw (ne, no_parent, fixup_walk)
            (refused λ o. ground (arith, parent_of_other o (ground arith)))
      | inl p ↦
          let j = (b.object_at (start i)).parent in
          let lt : j < i = pf i (omega arith) p in
          rw (ne, p, fixup_walk)
            (decide_parent (start i) min_offset _ (ground arith) p (
              fixup_walk-Decides fuel j (add64 (b.object_at (start i)).parent_offset 8)
                (λ k le. pf k (omega (arith, lt))) (omega (arith, lt))))
    ]
  ]
