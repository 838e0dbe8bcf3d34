-- ===== src/Driver/Ref/Handles.antt =====
-- Handles: their choice and their lookup.
use headless_testing.Base.{
  ℕ, suc, ◌+◌, ◌^◌, inc32, ◌≡◌, ◌≢◌, ◌<◌, ◌≤◌, refl, sym, ap, subst, Bool, true, ◌&&◌, Option, none,
  some, List, [], ◌∷◌, arith, count, All, All-map, ltb, Bool-cases, inl, inr, ◌==◌,
}
use headless_testing.Kernel.{ok}
use headless_testing.RbTree.{in_order, toward}
use headless_testing.RbTree.Order.{Has, All-Has}
use headless_testing.RbTree.Keys.{Rising, Finds, found, missing, search_tree-Finds}
use headless_testing.Driver.State.{Binder, BinderRef}
use headless_testing.Driver.Ref.{
  choose_desc, first_desc, binder_get_ref, by_desc, desc_of, if_strong,
}

-- Handles that rise, from `lo` on.
abbrev pub RisingFrom : ℕ → List ℕ → Type 0
RisingFrom lo [] = Unit {0}
RisingFrom lo (d ∷ ds) = (lo ≤ d) × RisingFrom (suc d) ds

not_counted : (lo : ℕ) (ds : List ℕ) (x : ℕ) → RisingFrom lo ds → x < lo → count x ds ≡ 0
not_counted lo [] x h lt = refl
not_counted lo (d ∷ ds) x h lt = ground (arith, not_counted (suc d) ds x h.1)

-- The least handle from `start` on that is not in use.
pub record IsLeastUnused (start : ℕ) (ds : List ℕ) (r : ℕ) : Type 0 where
  pub from_start : start ≤ r
  pub unused : count r ds ≡ 0
  pub least : (x : ℕ) → start ≤ x → x < r → 0 < count x ds

choose_desc-from :
    (ds : List ℕ) (lo desc : ℕ)
    → RisingFrom lo ds
    → All (λ d. d + 1 < 2 ^ 32) ds
    → lo ≤ desc
    → desc ≤ lo + 1
    → IsLeastUnused desc ds (choose_desc desc ds)
unfolding choose_desc
choose_desc-from [] lo desc h w a b = record {
  from_start = omega arith;
  unused = refl;
  least = λ x p q. absurd (omega arith);
}
choose_desc-from (d ∷ ds) lo desc h w a b = elim (Bool-cases (ltb desc d)) [
  | inl lt ↦
      rw (lt, choose_desc)
        (record {
          from_start = omega arith;
          unused = ground (arith, not_counted (suc d) ds desc h.1);
          least = λ x p q. absurd (omega arith);
        })
  | inr ge ↦
      let rest = choose_desc-from ds (suc d) (d + 1) h.1 w.1 (omega arith) (omega arith) in
      let next : inc32 d ≡ d + 1 = omega (arith, w.0) in
      rw (ge, choose_desc, next)
        (record {
          from_start = ground (arith, rest.from_start);
          unused = ground (arith, rest.unused, rest.from_start);
          least = λ x p q. elim (Bool-cases (d == x)) [
            | inl e ↦ rw e (omega arith)
            | inr ne ↦ rw ne (rest.least x (ground (arith, h.0)) q)
          ];
        })
]

first_desc-manager : (o : Option ℕ) (n : ℕ) → o ≡ some n → first_desc o n ≡ 0
first_desc-manager none n e = absurd (cc)
first_desc-manager (some m) n e = let same : m ≡ n = cc in ground (arith, same)

first_desc-other : (o : Option ℕ) (n : ℕ) → o ≢ some n → first_desc o n ≡ 1
first_desc-other none n e = refl
first_desc-other (some m) n e = elim (Bool-cases (m == n)) [
  | inl same ↦ absurd (e (let eq : m ≡ n = ground (arith, same) in ap (λ x. some x) eq))
  | inr other ↦ rw other refl
]

-- Over handles in use that rise and are below 2 ^ 32 - 1, a new reference gets the least unused
-- one: from 0 on for the context manager's node `n`, and from 1 on for any other, also where the
-- context has no manager.
pub choose_desc-IsLeastUnused :
    (manager : Option ℕ) (n : ℕ) (ds : List ℕ)
    → RisingFrom 0 ds
    → All (λ d. d + 1 < 2 ^ 32) ds
    → (manager ≡ some n → IsLeastUnused 0 ds (choose_desc (first_desc manager n) ds))
      × (manager ≢ some n → IsLeastUnused 1 ds (choose_desc (first_desc manager n) ds))
choose_desc-IsLeastUnused manager n ds h w = (
  λ e.
      subst (λ x. IsLeastUnused 0 ds (choose_desc x ds)) (sym (first_desc-manager manager n e))
        (choose_desc-from ds 0 0 h w (omega arith) (omega arith)),
  λ e.
      subst (λ x. IsLeastUnused 1 ds (choose_desc x ds)) (sym (first_desc-other manager n e))
        (choose_desc-from ds 0 1 h w (omega arith) (omega arith)),
)

-- The references in the tree exist.
abbrev pub Exist : Binder → List ℕ → Type 0
Exist b = All (λ r. (rf : BinderRef) × (b.refs r ≡ some rf))

by_desc-toward :
    (b : Binder) (desc r : ℕ)
    → (rf : BinderRef) × (b.refs r ≡ some rf)
    → by_desc b desc r ≡ toward desc (desc_of b r)
by_desc-toward b desc r (rf, e) = ground arith

-- What a lookup of a handle answers: the reference with the handle, which is strong if a strong
-- one is needed; or nothing, and then no reference has the handle, or it is weak where a strong
-- one is needed.
pub data LooksUp (b : Binder) (rs : List ℕ) (desc : ℕ) (need : Bool) : Option ℕ → Type 0 where
  got :
      (r : ℕ)
      → Has r rs
      → desc_of b r ≡ desc
      → ((rf : BinderRef) → b.refs r ≡ some rf → need ≡ true → rf.ref_data.strong ≢ 0)
      → LooksUp b rs desc need (some r)
  unknown : All (λ r. desc_of b r ≢ desc) rs → LooksUp b rs desc need none
  too_weak :
      (r : ℕ) (rf : BinderRef)
      → Has r rs
      → desc_of b r ≡ desc
      → b.refs r ≡ some rf
      → need ≡ true
      → rf.ref_data.strong ≡ 0
      → LooksUp b rs desc need none

module _ (b : Binder) (rs : List ℕ) (desc : ℕ) (need : Bool) where
  looked_up :
      (r : ℕ) (rf : BinderRef)
      → b.refs r ≡ some rf
      → Has r rs
      → desc_of b r ≡ desc
      → (o : Option ℕ) × (if_strong b need r ≡ ok o) × LooksUp b rs desc need o
  looked_up r rf e h d = elim (Bool-cases (need && rf.ref_data.strong == 0)) [
    | inl weak ↦ (none, ground (arith, weak), too_weak r rf h d e (ground arith) (ground arith))
    | inr good ↦ (some r, ground (arith, good), got r h d λ rf' e' n z. ground arith)
  ]

  answered :
      (o : Option ℕ)
      → Finds (desc_of b) (by_desc b desc) desc rs o
      → Exist b rs
      → (o' : Option ℕ) × ((elim o [ none ↦ ok none | some r ↦ if_strong b need r ]) ≡ ok o')
        × LooksUp b rs desc need o'
  answered o (found r h d) ex = let (rf, e) = All-Has _ r rs ex h in looked_up r rf e h d
  answered o (missing ne) ex = (none, refl, unknown ne)

-- In a process whose handles rise along their tree, a lookup meets no BUG and answers so.
pub binder_get_ref-LooksUp :
    (b : Binder) (p desc : ℕ) (need : Bool)
    → Rising (desc_of b) (in_order (b.procs p).refs_by_desc)
    → Exist b (in_order (b.procs p).refs_by_desc)
    → (o : Option ℕ) × (binder_get_ref b p desc need ≡ ok o)
      × LooksUp b (in_order (b.procs p).refs_by_desc) desc need o
unfolding binder_get_ref
binder_get_ref-LooksUp b p desc need rising ex =
    let rs = in_order (b.procs p).refs_by_desc in
    let (o, e, f) =
      search_tree-Finds (desc_of b) (by_desc b desc) desc (b.procs p).refs_by_desc rising
        (All-map (by_desc-toward b desc) rs ex) in
    rw e (answered b rs desc need o f ex)
