-- ===== src/Alloc/Pages.antt =====
-- `binder_update_page_range`: physical pages under a range of the buffer space.
pub mod Loops
pub mod Range
use headless_testing.Base.{
  ℕ, zero, suc, ◌+◌, ◌-◌, ◌*◌, ◌/◌, Bool, true, false, not, ◌&&◌, ◌||◌, Option, none, some, ltb,
  leb, ◌==◌, if◌then◌else◌, sub64, add64, page_size,
}
use headless_testing.Kernel.{Errno}
use headless_testing.Alloc.State.{BinderAlloc, LruPage}

-- What the kernel answers during one call. The pages are named by their kernel address, and the
-- user mapping by its user address.
pub record Memory : Type 0 where
  pub mm_users_not_zero : Bool
  pub mmget_still_valid : Bool
  pub alloc_page : ℕ → Bool
  pub map_kernel_range : ℕ → Bool
  pub vm_insert_page : ℕ → Bool
  pub kzalloc : Bool

abbrev pub page_index : BinderAlloc → ℕ → ℕ
page_index alloc addr = sub64 addr alloc.buffer / page_size

abbrev pub page_at : BinderAlloc → ℕ → LruPage
page_at alloc addr = alloc.pages (page_index alloc addr)

abbrev pub set_page : ℕ → LruPage → (ℕ → LruPage) → ℕ → LruPage
set_page i p pages j = if j == i then p else pages j

abbrev pub put_page : BinderAlloc → ℕ → LruPage → BinderAlloc
put_page alloc addr p = record alloc { pages = set_page (page_index alloc addr) p alloc.pages }

abbrev pub absent_page : LruPage
absent_page = record { page_ptr = false; on_lru = false }

abbrev pub active_page : LruPage
active_page = record { page_ptr = true; on_lru = false }

-- How many times `for (a = start; a < end; a += PAGE_SIZE)` runs.
abbrev pub rounds : ℕ → ℕ → ℕ
rounds start end = (end - start + (page_size - 1)) / page_size

-- The first loop: is a page of the range missing?
unfoldable pub need_mm : BinderAlloc → ℕ → ℕ → Bool
need_mm alloc zero addr = false
need_mm alloc (suc n) addr = not (page_at alloc addr).page_ptr || need_mm alloc n (addr + page_size)

-- The body of the second loop at one page, and whether it went through. A page that is there is
-- taken off the LRU list; a missing one is allocated, mapped and inserted, or given back.
unfoldable pub take_page : Memory → Bool → BinderAlloc → ℕ → BinderAlloc × Bool
take_page mem vma alloc addr =
    if (page_at alloc addr).page_ptr
    then (put_page alloc addr active_page, true)
    else if not vma
    then (alloc, false)
    else if not (mem.alloc_page addr)
    then (alloc, false)
    else if not (mem.map_kernel_range addr)
    then (put_page alloc addr absent_page, false)
    else if not (mem.vm_insert_page (add64 addr alloc.user_buffer_offset))
    then (put_page alloc addr absent_page, false)
    else (
      record (put_page alloc addr active_page) {
        pages_high =
            if ltb alloc.pages_high (page_index alloc addr + 1)
            then page_index alloc addr + 1
            else alloc.pages_high;
      },
      true,
    )

-- The second loop, and how many of its rounds went through.
unfoldable pub take_pages : Memory → Bool → BinderAlloc → ℕ → ℕ → BinderAlloc × ℕ
unfolding take_page
take_pages mem vma alloc zero addr = (alloc, 0)
take_pages mem vma alloc (suc n) addr =
    let rest = take_pages mem vma (take_page mem vma alloc addr).0 n (addr + page_size) in
    if (take_page mem vma alloc addr).1
    then (rest.0, suc rest.1)
    else ((take_page mem vma alloc addr).0, 0)

-- `list_lru_add(&binder_alloc_lru, &page->lru)`
abbrev pub lru_add : BinderAlloc → ℕ → BinderAlloc
lru_add alloc addr = put_page alloc addr (record (page_at alloc addr) { on_lru = true })

-- The `free_range` loop: `n` pages downwards, the first of them the one below `stop`.
unfoldable pub free_range : BinderAlloc → ℕ → ℕ → BinderAlloc
free_range alloc stop zero = alloc
free_range alloc stop (suc n) = free_range (lru_add alloc (stop - page_size)) (stop - page_size) n

-- From the second loop on: all pages, or the pages taken so far given back and the error.
unfoldable pub take_range : Memory → Bool → BinderAlloc → ℕ → ℕ → BinderAlloc × Option Errno
unfolding take_pages free_range
take_range mem vma alloc start n =
    let taken = take_pages mem vma alloc n start in
    if taken.1 == n then (taken.0, none) else (
      free_range taken.0 (start + taken.1 * page_size) taken.1,
      some (if vma then Errno.enomem else Errno.esrch),
    )

-- `binder_update_page_range(alloc, 1, start, end)`; none is the return value 0.
unfoldable pub allocate_page_range : Memory → BinderAlloc → ℕ → ℕ → BinderAlloc × Option Errno
unfolding need_mm take_range
allocate_page_range mem alloc start end =
    let n = rounds start end in
    let need = need_mm alloc n start in
    let mm = need && mem.mm_users_not_zero in
    let vma = mm && alloc.vma in
    if leb end start
    then (alloc, none)
    else if mm && not mem.mmget_still_valid
    then (alloc, some Errno.esrch)
    else if need && not vma
    then (alloc, some Errno.esrch)
    else take_range mem vma alloc start n

-- `binder_update_page_range(alloc, 0, start, end)`, whose callers ignore the return value.
unfoldable pub free_page_range : BinderAlloc → ℕ → ℕ → BinderAlloc
unfolding free_range
free_page_range alloc start end =
    if leb end start then alloc else free_range alloc end ((end - start) / page_size)
