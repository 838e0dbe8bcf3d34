-- ===== src/Driver/Heap.antt =====
-- A heap that is written.
use headless_testing.Base.{ℕ, ◌≡◌, refl, true, arith, ◌==◌, Bool-cases, inl, inr}
use headless_testing.Driver.State.{write}
use mathlib.Core.Path.{fun_ext}

pub ==_refl : (a : ℕ) → (a == a) ≡ true
==_refl a = ground arith

pub write_self {ℓ} : {A : Type ℓ} (i : ℕ) (v : A) (h : ℕ → A) → write i v h i ≡ v
write_self i v h = rw (==_refl i) refl

pub write-write {ℓ} :
    {A : Type ℓ} (i : ℕ) (v w : A) (h : ℕ → A) → write i v (write i w h) ≡ write i v h
write-write i v w h =
    fun_ext λ j. elim (Bool-cases (j == i)) [ inl e ↦ rw e refl | inr e ↦ rw e refl ]

pub write-same {ℓ} : {A : Type ℓ} (i : ℕ) (h : ℕ → A) → write i (h i) h ≡ h
write-same i h = fun_ext λ j. elim (Bool-cases (j == i)) [
  | inl e ↦ let same : j ≡ i = ground (arith, e) in rw (e, same) refl
  | inr e ↦ rw e refl
]
