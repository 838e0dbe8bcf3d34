-- ===== src/Alloc/Pages/Loops.antt =====
-- The loops of `binder_update_page_range`, page by page.
use headless_testing.Base.{
  ℕ, zero, suc, ◌+◌, ◌-◌, ◌*◌, ◌^◌, ◌≤◌, ◌<◌, ◌≡◌, ◌≢◌, refl, Bool, true, false, arith,
  if◌then◌else◌, page_size, trichotomy, below, same, above, ◌∙◌,
}
use headless_testing.Alloc.State.{BinderAlloc, LruPage}
use headless_testing.Alloc.Pages.{Memory, page_index, take_page, take_pages, free_range, lru_add}

-- The address of page `k` of the space.
abbrev pub page_addr : BinderAlloc → ℕ → ℕ
page_addr alloc k = alloc.buffer + k * page_size

pub page_index-page_addr :
    (alloc : BinderAlloc) (k : ℕ)
    → page_addr alloc k < 2 ^ 64
    → page_index alloc (page_addr alloc k) ≡ k
page_index-page_addr alloc k h = omega arith

-- A page that is in use: present, and not up for reclaim.
abbrev pub IsActive : LruPage → Type 0
IsActive p = (p.page_ptr ≡ true) × (p.on_lru ≡ false)

-- One round of the second loop: page `k` becomes active or stays missing, and no other changes.
pub record Takes (alloc : BinderAlloc) (k : ℕ) (r : BinderAlloc × Bool) : Type 0 where
  pub base : r.0.buffer ≡ alloc.buffer
  pub taken : r.1 ≡ true → IsActive (r.0.pages k)
  pub refused : r.1 ≡ false → (r.0.pages k).page_ptr ≡ false
  pub others : (i : ℕ) → i ≢ k → r.0.pages i ≡ alloc.pages i

module _ (mem : Memory) (vma : Bool) where
  take_page-Takes :
      (alloc : BinderAlloc) (k : ℕ)
      → page_addr alloc k < 2 ^ 64
      → Takes alloc k (take_page mem vma alloc (page_addr alloc k))
  unfolding take_page
  take_page-Takes alloc k h = rw (page_index-page_addr alloc k h) (record {
    base = ground arith;
    taken = ground arith;
    refused = ground arith;
    others = λ i ne. ground arith;
  })

-- The second loop over `n` pages from page `k`: the first `m` of them become active, the next one
-- stays missing, and no other changes.
pub record TakesAll (alloc : BinderAlloc) (k n : ℕ) (r : BinderAlloc × ℕ) : Type 0 where
  pub base : r.0.buffer ≡ alloc.buffer
  pub within : r.1 ≤ n
  pub taken : (i : ℕ) → k ≤ i → i < k + r.1 → IsActive (r.0.pages i)
  pub stopped : r.1 < n → (r.0.pages (k + r.1)).page_ptr ≡ false
  pub under : (i : ℕ) → i < k → r.0.pages i ≡ alloc.pages i
  pub over : (i : ℕ) → k + r.1 < i → r.0.pages i ≡ alloc.pages i
  pub end : r.1 ≡ n → r.0.pages (k + r.1) ≡ alloc.pages (k + r.1)

took :
    (alloc a : BinderAlloc) (k n : ℕ) (r : BinderAlloc × ℕ)
    → Takes alloc k (a, true)
    → TakesAll a (suc k) n r
    → TakesAll alloc k (suc n) (r.0, suc r.1)
took alloc a k n r t rest = record {
  base = rest.base ∙ t.base;
  within = omega (arith, rest.within);
  taken = λ i lo hi. elim (trichotomy i k) [
    | below b ↦ absurd (omega arith)
    | same e ↦ rw (e, rest.under k (omega arith)) (t.taken refl)
    | above b ↦ rest.taken i b (omega arith)
  ];
  stopped = λ lt. rw add_suc (rest.stopped (omega arith));
  under = λ i lt. rest.under i (omega arith) ∙ t.others i (omega arith);
  over = λ i lt. rest.over i (omega arith) ∙ t.others i (omega arith);
  end = λ e. rw add_suc (rest.end (omega arith) ∙ t.others (suc k + r.1) (omega arith));
}
  where
    add_suc : k + suc r.1 ≡ suc k + r.1
    add_suc = omega arith

stuck :
    (alloc a : BinderAlloc) (k n : ℕ) → Takes alloc k (a, false) → TakesAll alloc k (suc n) (a, 0)
stuck alloc a k n t = record {
  base = t.base;
  within = omega arith;
  taken = λ i lo hi. absurd (omega arith);
  stopped = λ lt. rw add_zero (t.refused refl);
  under = λ i lt. t.others i (omega arith);
  over = λ i lt. t.others i (omega arith);
  end = λ e. absurd (omega arith);
}
  where
    add_zero : k + 0 ≡ k
    add_zero = omega arith

took_or_stuck :
    (alloc : BinderAlloc) (k n : ℕ) (t : BinderAlloc × Bool) (rest : BinderAlloc × ℕ)
    → Takes alloc k t
    → TakesAll t.0 (suc k) n rest
    → TakesAll alloc k (suc n) (if t.1 then (rest.0, suc rest.1) else (t.0, 0))
took_or_stuck alloc k n (a, true) rest t r = took alloc a k n rest t r
took_or_stuck alloc k n (a, false) rest t r = stuck alloc a k n t

module _ (mem : Memory) (vma : Bool) where
  pub take_pages-TakesAll :
      (n k : ℕ) (alloc : BinderAlloc)
      → page_addr alloc (k + n) < 2 ^ 64
      → TakesAll alloc k n (take_pages mem vma alloc n (page_addr alloc k))
  unfolding take_pages
  take_pages-TakesAll zero k alloc h = record {
    base = refl;
    within = omega arith;
    taken = λ i lo hi. absurd (omega arith);
    stopped = λ lt. absurd (omega arith);
    under = λ i lt. refl;
    over = λ i lt. refl;
    end = λ e. refl;
  }
  take_pages-TakesAll (suc n) k alloc h =
      let t = take_page mem vma alloc (page_addr alloc k) in
      let one = take_page-Takes mem vma alloc k (omega arith) in
      let next : page_addr t.0 (suc k) ≡ page_addr alloc k + page_size =
        rw one.base (omega arith) in
      took_or_stuck alloc k n t _ one
        (rw next at (take_pages-TakesAll n (suc k) t.0 (rw one.base (omega arith))))

-- The `free_range` loop over `n` pages from page `k`: all of them are on the LRU list, present or
-- not as before, and no other page changes.
pub record Frees (alloc : BinderAlloc) (k n : ℕ) (a : BinderAlloc) : Type 0 where
  pub base : a.buffer ≡ alloc.buffer
  pub listed : (i : ℕ) → k ≤ i → i < k + n → (a.pages i).on_lru ≡ true
  pub present : (i : ℕ) → (a.pages i).page_ptr ≡ (alloc.pages i).page_ptr
  pub under : (i : ℕ) → i < k → a.pages i ≡ alloc.pages i
  pub over : (i : ℕ) → k + n ≤ i → a.pages i ≡ alloc.pages i

lru_add-Frees :
    (alloc : BinderAlloc) (k : ℕ)
    → page_addr alloc k < 2 ^ 64
    → Frees alloc k 1 (lru_add alloc (page_addr alloc k))
lru_add-Frees alloc k h = rw (page_index-page_addr alloc k h) (record {
  base = refl;
  listed = λ i lo hi. ground arith;
  present = λ i. ground arith;
  under = λ i lt. ground arith;
  over = λ i le. ground arith;
})

Frees-more :
    (alloc b a : BinderAlloc) (k n : ℕ)
    → Frees alloc (k + n) 1 b
    → Frees b k n a
    → Frees alloc k (suc n) a
Frees-more alloc b a k n f g = record {
  base = g.base ∙ f.base;
  listed = λ i lo hi. elim (trichotomy i (k + n)) [
    | below lt ↦ g.listed i lo lt
    | same e ↦ rw (g.over i (omega arith)) (f.listed i (omega arith) (omega arith))
    | above gt ↦ absurd (omega arith)
  ];
  present = λ i. g.present i ∙ f.present i;
  under = λ i lt. g.under i lt ∙ f.under i (omega arith);
  over = λ i le. g.over i (omega arith) ∙ f.over i (omega arith);
}

pub free_range-Frees :
    (n k : ℕ) (alloc : BinderAlloc)
    → page_addr alloc (k + n) < 2 ^ 64
    → Frees alloc k n (free_range alloc (page_addr alloc (k + n)) n)
unfolding free_range
free_range-Frees zero k alloc h = record {
  base = refl;
  listed = λ i lo hi. absurd (omega arith);
  present = λ i. refl;
  under = λ i lt. refl;
  over = λ i le. refl;
}
free_range-Frees (suc n) k alloc h =
    let down : page_addr alloc (k + suc n) - page_size ≡ page_addr alloc (k + n) = omega arith in
    rw down (
      Frees-more alloc (lru_add alloc (page_addr alloc (k + n))) _ k n
        (lru_add-Frees alloc (k + n) (omega arith))
        (free_range-Frees n k (lru_add alloc (page_addr alloc (k + n))) (omega arith)))
