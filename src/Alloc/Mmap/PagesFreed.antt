-- ===== src/Alloc/Mmap/PagesFreed.antt =====
-- What the page loop of `binder_alloc_deferred_release` frees.
use headless_testing.Base.{
  ℕ, zero, suc, ◌+◌, ◌≤◌, ◌<◌, ◌≡◌, refl, false, arith, if◌then◌else◌, trichotomy, below, same,
  above,
}
use headless_testing.Alloc.State.{LruPage}
use headless_testing.Alloc.Pages.{set_page, absent_page}
use headless_testing.Alloc.Mmap.{count_pages, free_pages, page_counts}

-- Of the first `n` pages each one that is there, active or on the LRU list, is counted and freed,
-- and no other page changes.
pub record FreesPages (n : ℕ) (pages : ℕ → LruPage) : Type 0 where
  pub counted : count_pages n pages ≡ (page_counts n pages).active + (page_counts n pages).lru
  pub all_pages :
      (page_counts n pages).active + (page_counts n pages).lru + (page_counts n pages).missing ≡ n
  pub gone : (i : ℕ) → i < n → (free_pages n pages i).page_ptr ≡ false
  pub others : (i : ℕ) → n ≤ i → free_pages n pages i ≡ pages i

others_lem : (n : ℕ) (pages : ℕ → LruPage) (i : ℕ) → n ≤ i → free_pages n pages i ≡ pages i
unfolding free_pages
others_lem zero pages i h = refl
others_lem (suc n) pages i h =
    let next = if (pages n).page_ptr then set_page n absent_page pages else pages in
    let rest = others_lem n next i (omega arith) in ground (arith, rest)

gone_lem : (n : ℕ) (pages : ℕ → LruPage) (i : ℕ) → i < n → (free_pages n pages i).page_ptr ≡ false
unfolding free_pages
gone_lem zero pages i h = absurd (omega arith)
gone_lem (suc n) pages i h =
    let next = if (pages n).page_ptr then set_page n absent_page pages else pages in
    elim (trichotomy i n) [
      | below lt ↦ gone_lem n next i lt
      | same e ↦ let rest = others_lem n next i (omega arith) in rw rest (ground (arith, e))
      | above gt ↦ absurd (omega arith)
    ]

-- The release of an area of `n` pages counts and frees each page that is there, active or on the
-- LRU list, leaves none of them, and touches no other.
pub free_pages-FreesPages : (n : ℕ) (pages : ℕ → LruPage) → FreesPages n pages
unfolding count_pages page_counts
free_pages-FreesPages zero pages = record {
  counted = refl;
  all_pages = refl;
  gone = gone_lem zero pages;
  others = others_lem zero pages;
}
free_pages-FreesPages (suc n) pages =
    let rest = free_pages-FreesPages n pages in
    record {
      counted = ground (arith, rest.counted);
      all_pages = ground (arith, rest.all_pages);
      gone = gone_lem (suc n) pages;
      others = others_lem (suc n) pages;
    }
