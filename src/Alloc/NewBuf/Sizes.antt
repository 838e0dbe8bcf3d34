-- ===== src/Alloc/NewBuf/Sizes.antt =====
-- What the sizes that `binder_alloc_new_buf` accepts add up to.
use headless_testing.Base.{
  ℕ, ◌+◌, ◌*◌, ◌/◌, ◌<◌, ◌^◌, ◌≡◌, refl, ◌∙◌, Bool, true, false, none, some, arith, ltb,
  if◌then◌else◌, add64, align8, ◌||◌,
}
use headless_testing.Alloc.NewBuf.{checked_size}

passed : (p q : Bool) {x y : ℕ} → (if p then none else if q then none else some x) ≡ some y → x ≡ y
passed true q e = absurd (cc)
passed false true e = absurd (cc)
passed false false e = cc

-- A size that passes is the sum of the rounded parts.
pub checked_size-sum :
    (ds os es asked : ℕ)
    → checked_size ds os es ≡ some asked
    → add64 (add64 (align8 ds) (align8 os)) (align8 es) ≡ asked
unfolding checked_size
checked_size-sum ds os es asked e =
    let two = add64 (align8 ds) (align8 os) in
    let sum = add64 two (align8 es) in
    passed (ltb two ds || ltb two os) (ltb sum two || ltb sum es) e

-- A request is a number of words, below 2^64.
pub checked_size-words :
    (ds os es asked : ℕ)
    → checked_size ds os es ≡ some asked
    → (asked < 2 ^ 64) × ((asked < 8) → asked ≡ 0)
checked_size-words ds os es asked e =
    let s = checked_size-sum ds os es asked e in (omega (arith, s), λ h. omega (arith, s, h))

-- A size in whole words of 8 bytes, without a bound.
abbrev pub words : ℕ → ℕ
words size = (size + 7) / 8 * 8

-- A sum that is below neither part did not wrap.
two_words :
    (x y : ℕ)
    → ltb (add64 (align8 x) (align8 y)) x ≡ false
    → ltb (add64 (align8 x) (align8 y)) y ≡ false
    → add64 (align8 x) (align8 y) ≡ words x + words y
two_words x y h k = ground (arith, h, k)

third_word :
    (q z : ℕ)
    → (q * 8 < 2 ^ 64)
    → ltb (add64 (q * 8) (align8 z)) (q * 8) ≡ false
    → ltb (add64 (q * 8) (align8 z)) z ≡ false
    → add64 (q * 8) (align8 z) ≡ q * 8 + words z
third_word q z s h k = ground (arith, s, h, k)

neither : (p q : Bool) → p || q ≡ false → (p ≡ false) × (q ≡ false)
neither true q h = absurd (cc)
neither false q h = (refl, h)

not_passed :
    (p q : Bool) (x : ℕ) {y : ℕ}
    → (if p then none else if q then none else some x) ≡ some y
    → (p ≡ false) × (q ≡ false)
not_passed true q x e = absurd (cc)
not_passed false true x e = absurd (cc)
not_passed false false x e = (refl, refl)

-- A size that passes is the sum of the parts in whole words, without wrapping.
pub checked_size-words_sum :
    (ds os es asked : ℕ)
    → checked_size ds os es ≡ some asked
    → asked ≡ words ds + words os + words es
unfolding checked_size
checked_size-words_sum ds os es asked e =
    let two = add64 (align8 ds) (align8 os) in
    let sum = add64 two (align8 es) in
    let (first, second) = not_passed (ltb two ds || ltb two os) (ltb sum two || ltb sum es) sum e in
    let (h, k) = neither (ltb two ds) (ltb two os) first in
    let (i, j) = neither (ltb sum two) (ltb sum es) second in
    let q = (ds + 7) / 8 + (os + 7) / 8 in
    let t : two ≡ q * 8 = two_words ds os h k ∙ omega arith in
    let small : q * 8 < 2 ^ 64 = omega (arith, t) in
    let third = third_word q es small (rw t at i) (rw t at j) in
    let s = checked_size-sum ds os es asked e in omega (arith, t, third, s)
