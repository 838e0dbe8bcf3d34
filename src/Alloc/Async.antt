-- ===== src/Alloc/Async.antt =====
-- What leaves the space for asynchronous transactions and the list of buffers as they are.
pub mod Handout
pub mod GiveBack
use headless_testing.Base.{
  ℕ, zero, suc, ◌+◌, ◌*◌, ◌-◌, ◌/◌, leb, ◌<◌, ◌^◌, ◌≡◌, refl, Bool, true, false, not, ◌&&◌, Option,
  none, some, List, [], ◌∷◌, arith, ltb, ◌==◌, if◌then◌else◌, sub64, add64, align8, page_mask,
  page_align, if_both, if_cases, subst, page_size,
}
use headless_testing.Kernel.{
  Run, ok, bug, ◌>>=◌, ◌>>◌, bug_on, Ptr, ptr, err_ptr, Errno, Always, stops, gives, Always-bind,
  Always-bug_on, Always-ok, Always-any,
}
use headless_testing.RbTree.{RbLib, link}
use headless_testing.Alloc.State.{
  BinderBuffer, BinderAlloc, find, update, free_at, binder_insert_free_buffer, by_size, by_address,
  binder_insert_allocated_buffer_locked, binder_alloc_buffer_size,
}
use headless_testing.Alloc.Pages.{
  Memory, rounds, need_mm, take_page, take_pages, free_range, take_range, allocate_page_range,
  free_page_range,
}

-- The async space and the buffers of `a`.
pub record SameSpace (a c : BinderAlloc) : Type 0 where
  pub space : c.free_async_space ≡ a.free_async_space
  pub buffers : c.buffers ≡ a.buffers

SameSpace-refl : (a : BinderAlloc) → SameSpace a a
SameSpace-refl a = record { space = refl; buffers = refl }

SameSpace-trans : (a c e : BinderAlloc) → SameSpace a c → SameSpace c e → SameSpace a e
SameSpace-trans a c e s t = record { space = cc; buffers = cc }

take_page-SameSpace :
    (mem : Memory) (vma : Bool) (alloc : BinderAlloc) (addr : ℕ)
    → SameSpace alloc (take_page mem vma alloc addr).0
unfolding take_page
take_page-SameSpace mem vma alloc addr = record { space = ground arith; buffers = ground arith }

take_pages-SameSpace :
    (mem : Memory) (vma : Bool) (alloc : BinderAlloc) (n addr : ℕ)
    → SameSpace alloc (take_pages mem vma alloc n addr).0
unfolding take_pages
take_pages-SameSpace mem vma alloc zero addr = SameSpace-refl alloc
take_pages-SameSpace mem vma alloc (suc n) addr =
    let one = take_page mem vma alloc addr in
    let rest = take_pages mem vma one.0 n (addr + page_size) in
    if_both (λ (r : BinderAlloc × ℕ). SameSpace alloc r.0) one.1 {x = (rest.0, suc rest.1)}
      {y = (one.0, 0)}
      (SameSpace-trans alloc one.0 rest.0 (take_page-SameSpace mem vma alloc addr)
        (take_pages-SameSpace mem vma one.0 n (addr + page_size)))
      (take_page-SameSpace mem vma alloc addr)

free_range-SameSpace :
    (n : ℕ) (alloc : BinderAlloc) (stop : ℕ) → SameSpace alloc (free_range alloc stop n)
unfolding free_range
free_range-SameSpace zero alloc stop = SameSpace-refl alloc
free_range-SameSpace (suc n) alloc stop =
    let t = free_range-SameSpace n _ _ in record { space = t.space; buffers = t.buffers }

pub free_page_range-SameSpace :
    (alloc : BinderAlloc) (start end : ℕ) → SameSpace alloc (free_page_range alloc start end)
unfolding free_page_range
free_page_range-SameSpace alloc start end =
    if_both (SameSpace alloc) (leb end start) (SameSpace-refl alloc)
      (free_range-SameSpace ((end - start) / page_size) alloc end)

-- What a page range leaves, whatever it returns.
record After (alloc : BinderAlloc) (r : BinderAlloc × Option Errno) : Type 0 where
  pub same : SameSpace alloc r.0

take_range-After :
    (mem : Memory) (vma : Bool) (alloc : BinderAlloc) (start n : ℕ)
    → After alloc (take_range mem vma alloc start n)
unfolding take_range
take_range-After mem vma alloc start n =
    let taken = take_pages mem vma alloc n start in
    let s = take_pages-SameSpace mem vma alloc n start in
    if_both (After alloc) (taken.1 == n) (record { same = s })
      (record {
        same =
            SameSpace-trans alloc taken.0 (free_range taken.0 (start + taken.1 * page_size) taken.1)
              s (free_range-SameSpace taken.1 taken.0 (start + taken.1 * page_size));
      })

allocate_page_range-After :
    (mem : Memory) (alloc : BinderAlloc) (start end : ℕ)
    → After alloc (allocate_page_range mem alloc start end)
unfolding allocate_page_range
allocate_page_range-After mem alloc start end =
    let n = rounds start end in
    let need = need_mm alloc n start in
    let mm = need && mem.mm_users_not_zero in
    let vma = mm && alloc.vma in
    let s = SameSpace-refl alloc in
    if_both (After alloc) (leb end start) (record { same = s })
      (if_both (After alloc) (mm && not mem.mmget_still_valid) (record { same = s })
        (if_both (After alloc) (need && not vma) (record { same = s })
          (take_range-After mem vma alloc start n)))

pub allocate_page_range-SameSpace :
    (mem : Memory) (alloc : BinderAlloc) (start end : ℕ)
    → SameSpace alloc (allocate_page_range mem alloc start end).0
allocate_page_range-SameSpace mem alloc start end =
    (allocate_page_range-After mem alloc start end).same

module _ (rb : RbLib) where
  pub insert_free-SameSpace :
      (alloc : BinderAlloc) (d : ℕ)
      → Always (SameSpace alloc) (binder_insert_free_buffer rb alloc d)
  unfolding binder_insert_free_buffer
  insert_free-SameSpace alloc d =
      let size_of = binder_alloc_buffer_size alloc in
      Always-bug_on (not (free_at alloc.buffers d)) (
        Always-any (link (by_size size_of alloc.buffers (size_of d)) d alloc.free_buffers)
          (λ t. gives (record { space = refl; buffers = refl })))

  pub insert_allocated-SameSpace :
      (alloc : BinderAlloc) (d : ℕ)
      → Always (SameSpace alloc) (binder_insert_allocated_buffer_locked rb alloc d)
  unfolding binder_insert_allocated_buffer_locked
  insert_allocated-SameSpace alloc d = Always-bug_on (free_at alloc.buffers d) (
      Always-any (link (by_address alloc.buffers d) d alloc.allocated_buffers)
        (λ t. gives (record { space = refl; buffers = refl })))
