-- ===== src/Alloc/Mmap.antt =====
-- The life of an allocator: `binder_alloc_init`, `binder_alloc_mmap_handler`,
-- `binder_alloc_vma_close`, `binder_alloc_deferred_release`, and the shrinker's callback.
pub mod Mapped
pub mod Terminates
pub mod PagesFreed
use headless_testing.Base.{
  ℕ, zero, suc, ◌+◌, ◌/◌, Bool, true, false, not, Option, none, some, [], ◌∷◌, ◌==◌, if◌then◌else◌,
  sub64, page_size, is_some, length,
}
use headless_testing.Kernel.{Run, ok, bug, ◌>>=◌, ◌>>◌, bug_on, Errno}
use headless_testing.RbTree.{leaf, RbLib, in_order, rb_first}
use headless_testing.Alloc.State.{BinderAlloc, LruPage, new_buffer, find, binder_insert_free_buffer}
use headless_testing.Alloc.Pages.{set_page, absent_page}
use headless_testing.Alloc.FreeBuf.{binder_alloc_free_buf}

-- `binder_alloc_init`, on the zeroed memory of a new `struct binder_proc`.
abbrev pub binder_alloc_init : BinderAlloc
binder_alloc_init = record {
  vma = false;
  vma_vm_mm = false;
  buffer = 0;
  user_buffer_offset = 0;
  buffers = [];
  free_buffers = leaf;
  allocated_buffers = leaf;
  free_async_space = 0;
  has_pages = false;
  pages = λ i. absent_page;
  buffer_size = 0;
  pages_high = 0;
}

-- What the kernel answers during an mmap.
pub record MmapMemory : Type 0 where
  pub get_vm_area : Option ℕ
  pub kzalloc_pages : Bool
  pub kzalloc_buffer : Bool

-- With the area at `addr`: the page array, the one free buffer, and the accounting.
unfoldable pub map_area :
    RbLib → MmapMemory → BinderAlloc → ℕ → ℕ → ℕ → Run (BinderAlloc × Option Errno)
map_area rb mem alloc vm_start vm_end addr =
    let placed = record alloc { buffer = addr; user_buffer_offset = sub64 vm_start addr } in
    let size = sub64 vm_end vm_start in
    let sized = record placed { has_pages = true; pages = λ i. absent_page; buffer_size = size } in
    if not mem.kzalloc_pages
    then ok (record placed { has_pages = false; buffer = 0 }, some Errno.enomem)
    else if not mem.kzalloc_buffer
    then ok (record sized { has_pages = false; buffer = 0 }, some Errno.enomem)
    else (binder_insert_free_buffer rb (record sized { buffers = new_buffer addr ∷ alloc.buffers })
          addr
        >>= λ done.
            ok (record done { free_async_space = size / 2; vma = true; vma_vm_mm = true }, none))

-- `binder_alloc_mmap_handler` for a vma from `vm_start` to `vm_end`; none is the return value 0.
unfoldable pub binder_alloc_mmap_handler :
    RbLib → MmapMemory → BinderAlloc → ℕ → ℕ → Run (BinderAlloc × Option Errno)
unfolding map_area
binder_alloc_mmap_handler rb mem alloc vm_start vm_end =
    if not (alloc.buffer == 0) then ok (alloc, some Errno.ebusy) else elim mem.get_vm_area [
      | none ↦ ok (alloc, some Errno.enomem)
      | some addr ↦ map_area rb mem alloc vm_start vm_end addr
    ]

abbrev pub binder_alloc_vma_close : BinderAlloc → BinderAlloc
binder_alloc_vma_close alloc = record alloc { vma = false }

abbrev pub binder_alloc_get_allocated_count : BinderAlloc → ℕ
binder_alloc_get_allocated_count alloc = length (in_order alloc.allocated_buffers)

-- The first loop of `binder_alloc_deferred_release`: free the first allocated buffer while there
-- is one, and count. None means that the fuel ran out.
unfoldable pub free_allocated : RbLib → ℕ → BinderAlloc → ℕ → Run (Option (BinderAlloc × ℕ))
free_allocated rb zero alloc freed = ok none
free_allocated rb (suc fuel) alloc freed = elim (rb_first alloc.allocated_buffers) [
  | none ↦ ok (some (alloc, freed))
  | some d ↦ elim (find d alloc.buffers) [
    | none ↦ bug
    | some b ↦ elim (is_some b.transaction) [
      | true ↦ bug
      | false ↦ elim (binder_alloc_free_buf rb alloc d) [
        | ok alloc' ↦ free_allocated rb fuel alloc' (freed + 1)
        | bug ↦ bug
      ]
    ]
  ]
]

-- How many of the first `n` pages are there.
unfoldable pub count_pages : ℕ → (ℕ → LruPage) → ℕ
count_pages zero pages = 0
count_pages (suc n) pages = (if (pages n).page_ptr then 1 else 0) + count_pages n pages

-- The page loop: every page below `n` that is there is unmapped, freed and off the LRU list.
unfoldable pub free_pages : ℕ → (ℕ → LruPage) → ℕ → LruPage
free_pages zero pages = pages
free_pages (suc n) pages =
    free_pages n (if (pages n).page_ptr then set_page n absent_page pages else pages)

pub record Released : Type 0 where
  pub alloc : BinderAlloc
  pub freed : ℕ
  pub page_count : ℕ

-- The rest of `binder_alloc_deferred_release`: the buffers that are left, and the pages.
unfoldable pub finish_release : ℕ → Option (BinderAlloc × ℕ) → Option Released
unfolding count_pages free_pages
finish_release n none = none
finish_release n (some (a, freed)) = some (record {
  alloc = record a {
    buffers = [];
    has_pages = false;
    pages = if a.has_pages then free_pages n a.pages else a.pages;
  };
  freed = freed;
  page_count = if a.has_pages then count_pages n a.pages else 0;
})

-- `binder_alloc_deferred_release`
unfoldable pub binder_alloc_deferred_release : RbLib → ℕ → BinderAlloc → Run (Option Released)
unfolding free_allocated finish_release
binder_alloc_deferred_release rb fuel alloc = do
  bug_on alloc.vma
  done ← free_allocated rb fuel alloc 0
  ok (finish_release (alloc.buffer_size / page_size) done)

-- What `binder_alloc_print_pages` counts: active pages, pages on the LRU list, missing ones.
pub record PageCounts : Type 0 where
  pub active : ℕ
  pub lru : ℕ
  pub missing : ℕ

abbrev pub tally : LruPage → PageCounts → PageCounts
tally p c =
    if not p.page_ptr
    then record c { missing = c.missing + 1 }
    else if p.on_lru
    then record c { lru = c.lru + 1 }
    else record c { active = c.active + 1 }

unfoldable pub page_counts : ℕ → (ℕ → LruPage) → PageCounts
page_counts zero pages = record { active = 0; lru = 0; missing = 0 }
page_counts (suc n) pages = tally (pages n) (page_counts n pages)

pub data LruStatus : Type 0 where
  lru_removed_retry lru_skip : LruStatus

-- What the kernel answers to the shrinker.
pub record Shrink : Type 0 where
  pub mutex_trylock : Bool
  pub mm_users_not_zero : Bool
  pub down_write_trylock : Bool

-- `binder_alloc_free_page` for the page with the given index.
unfoldable pub binder_alloc_free_page : Shrink → BinderAlloc → ℕ → BinderAlloc × LruStatus
binder_alloc_free_page s alloc index =
    if not s.mutex_trylock
    then (alloc, lru_skip)
    else if not (alloc.pages index).page_ptr
    then (alloc, lru_skip)
    else if not s.mm_users_not_zero
    then (alloc, lru_skip)
    else if not s.down_write_trylock
    then (alloc, lru_skip)
    else (record alloc { pages = set_page index absent_page alloc.pages }, lru_removed_retry)
