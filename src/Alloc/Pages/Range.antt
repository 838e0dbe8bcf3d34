-- ===== src/Alloc/Pages/Range.antt =====
-- What `binder_update_page_range` leaves in the page array.
use headless_testing.Base.{
  ℕ, ◌+◌, ◌*◌, ◌^◌, ◌≤◌, ◌<◌, ◌≡◌, refl, ◌⊎◌, Bool, true, false, Option, none, some, arith, leb,
  ◌==◌, page_size, Bool-cases, inl, inr, trichotomy, below, same, above, ◌∙◌, if_both,
}
use headless_testing.Kernel.{Errno}
use headless_testing.Alloc.State.{BinderAlloc, LruPage}
use headless_testing.Alloc.Pages.{Memory, take_pages, take_range, allocate_page_range, rounds}
use headless_testing.Alloc.Pages.Loops.{
  page_addr, IsActive, TakesAll, take_pages-TakesAll, Frees, free_range-Frees,
}

-- A page that is not in use: missing, or up for reclaim.
abbrev pub IsIdle : LruPage → Type 0
IsIdle p = (p.page_ptr ≡ false) ⊎ (p.on_lru ≡ true)

-- What an allocation of the pages from `k` to `k + n` leaves: all of them active, or, with an
-- error, none of them that was not; and every other page as it was.
pub data Outcome (alloc : BinderAlloc) (k n : ℕ) : BinderAlloc × Option Errno → Type 0 where
  all_active :
      (a : BinderAlloc)
      → ((i : ℕ) → k ≤ i → i < k + n → IsActive (a.pages i))
      → ((i : ℕ) → (i < k) ⊎ (k + n ≤ i) → a.pages i ≡ alloc.pages i)
      → Outcome alloc k n (a, none)
  none_taken :
      (a : BinderAlloc) (e : Errno)
      → ((i : ℕ) → k ≤ i → i < k + n → IsIdle (alloc.pages i) → IsIdle (a.pages i))
      → ((i : ℕ) → (i < k) ⊎ (k + n ≤ i) → a.pages i ≡ alloc.pages i)
      → Outcome alloc k n (a, some e)

module _ (alloc : BinderAlloc) (k n : ℕ) where
  all_taken : (r : BinderAlloc × ℕ) → TakesAll alloc k n r → r.1 ≡ n → Outcome alloc k n (r.0, none)
  all_taken r t e =
      all_active r.0 (λ i lo hi. t.taken i lo (omega (arith, e)))
        λ i out. elim (trichotomy i (k + n)) [
          | below lt ↦ t.under i (omega arith)
          | same eq ↦ rw (eq, ← e) (t.end e)
          | above gt ↦ t.over i (omega (arith, e))
        ]

  undone :
      (r : BinderAlloc × ℕ) (a : BinderAlloc) (e : Errno)
      → TakesAll alloc k n r
      → r.1 < n
      → Frees r.0 k r.1 a
      → Outcome alloc k n (a, some e)
  undone r a e t lt f = none_taken a e idle λ i out. elim (trichotomy i k) [
    | below b ↦ f.under i b ∙ t.under i b
    | same eq ↦ absurd (omega arith)
    | above b ↦ f.over i (omega arith) ∙ t.over i (omega arith)
  ]
    where
      idle : (i : ℕ) → k ≤ i → i < k + n → IsIdle (alloc.pages i) → IsIdle (a.pages i)
      idle i lo hi was = elim (trichotomy i (k + r.1)) [
        | below b ↦ inr (f.listed i lo b)
        | same eq ↦ inl (rw (f.present i, eq) (t.stopped lt))
        | above b ↦ rw (f.over i (omega arith) ∙ t.over i b) was
      ]

  untouched : (e : Errno) → Outcome alloc k n (alloc, some e)
  untouched e = none_taken alloc e (λ i lo hi h. h) (λ i out. refl)

  take_range-Outcome :
      (mem : Memory) (vma : Bool)
      → page_addr alloc (k + n) < 2 ^ 64
      → Outcome alloc k n (take_range mem vma alloc (page_addr alloc k) n)
  unfolding take_range
  take_range-Outcome mem vma h =
      let r = take_pages mem vma alloc n (page_addr alloc k) in
      let t = take_pages-TakesAll mem vma n k alloc h in
      let reached : page_addr r.0 (k + r.1) ≡ page_addr alloc k + r.1 * page_size =
        rw t.base (omega arith) in
      let low : page_addr r.0 (k + r.1) < 2 ^ 64 = rw reached (omega (arith, t.within)) in
      elim (Bool-cases (r.1 == n)) [
        | inl eq ↦ rw eq (all_taken r t (ground arith))
        | inr ne ↦ rw ne (
            undone r _ _ t (ground (arith, t.within))
              (rw reached at (free_range-Frees r.1 k r.0 low)))
      ]

  -- Allocating the pages from `k` to `k + n` either makes all of them active, or fails and leaves
  -- none of them active that was not; no other page changes. The range must lie below 2 ^ 64.
  pub allocate_page_range-Outcome :
      (mem : Memory)
      → page_addr alloc (k + n) < 2 ^ 64
      → Outcome alloc k n
          (allocate_page_range mem alloc (page_addr alloc k) (page_addr alloc (k + n)))
  unfolding allocate_page_range
  allocate_page_range-Outcome mem h =
      let rounds_n : rounds (page_addr alloc k) (page_addr alloc (k + n)) ≡ n = omega arith in
      elim (Bool-cases (leb (page_addr alloc (k + n)) (page_addr alloc k))) [
        | inl empty ↦ rw empty (all_active alloc (λ i lo hi. absurd (ground arith)) (λ i out. refl))
        | inr more ↦
            rw (more, rounds_n)
              (if_both (Outcome alloc k n) _ (untouched Errno.esrch) (
                if_both (Outcome alloc k n) _ (untouched Errno.esrch) (take_range-Outcome mem _ h)))
      ]
