-- ===== src/Alloc/Tests.antt =====
-- A small allocator: four pages at 65536, all free or with one buffer handed out.
use headless_testing.Base.{
  ◌%◌, ◌<◌, ◌^◌, ℕ, ◌+◌, ◌≡◌, refl, true, false, none, some, [], ◌∷◌, arith, if◌then◌else◌, ◌==◌,
}
use headless_testing.Kernel.{Finishes, Gives, Run, ok, bug, Ptr, err_ptr, Errno, Always}
use headless_testing.RbTree.{Tree, leaf, node, in_order, link, search_tree}
use headless_testing.RbTree.Plain.{plain}
use headless_testing.Alloc.State.{
  BinderAlloc, LruPage, new_buffer, binder_alloc_prepare_to_free, binder_alloc_buffer_size,
  binder_buffer_next, binder_buffer_prev, binder_insert_free_buffer,
  binder_insert_allocated_buffer_locked,
}
use headless_testing.Alloc.Pages.{
  Memory, absent_page, active_page, allocate_page_range, free_page_range,
}
use headless_testing.Alloc.Pages.Loops.{page_addr}
use headless_testing.Alloc.Pages.Range.{Outcome, allocate_page_range-Outcome}
use headless_testing.Alloc.NewBuf.{Fit, best_fit_from, binder_alloc_new_buf}
use headless_testing.Alloc.NewBuf.BestFit.{Ends, Ends-best_fit_from}
use headless_testing.Alloc.FreeBuf.{binder_alloc_free_buf, binder_delete_free_buffer}
use headless_testing.Alloc.Mmap.Terminates.{binder_alloc_deferred_release-Finishes}
use headless_testing.Alloc.Mmap.{
  binder_alloc_deferred_release, binder_alloc_vma_close, MmapMemory, binder_alloc_init,
  binder_alloc_mmap_handler,
}
use headless_testing.Alloc.Mmap.Mapped.{Maps, unmapped, binder_alloc_mmap_handler-Maps}
use headless_testing.Alloc.Mmap.PagesFreed.{FreesPages, free_pages-FreesPages}
use headless_testing.Alloc.Claim.{binder_alloc_prepare_to_free_once}
use headless_testing.Alloc.Async.Handout.{Granted, binder_alloc_new_buf-Granted}
use headless_testing.Alloc.Async.GiveBack.{
  space_after, binder_alloc_free_buf-binder_alloc_new_buf_space,
}

abbrev pub all_well : Memory
all_well = record {
  mm_users_not_zero = true;
  mmget_still_valid = true;
  alloc_page = λ a. true;
  map_kernel_range = λ a. true;
  vm_insert_page = λ a. true;
  kzalloc = true;
}

-- The third page cannot be inserted.
abbrev third_page_fails : Memory
third_page_fails = record all_well { vm_insert_page = λ a. if a == 73728 then false else true }

abbrev enough_memory : MmapMemory
enough_memory = record { get_vm_area = some 65536; kzalloc_pages = true; kzalloc_buffer = true }

found_low : (addr : ℕ) → enough_memory.get_vm_area ≡ some addr → addr < 2 ^ 64
found_low addr e = ground arith

abbrev pub mapped : BinderAlloc
mapped = record {
  vma = true;
  vma_vm_mm = true;
  buffer = 65536;
  user_buffer_offset = 0;
  buffers = new_buffer 65536 ∷ [];
  free_buffers = node leaf 65536 leaf;
  allocated_buffers = leaf;
  free_async_space = 8192;
  has_pages = true;
  pages = λ i. absent_page;
  buffer_size = 16384;
  pages_high = 0;
}

-- With a buffer that user space may free.
abbrev handed : BinderAlloc
handed = record mapped {
  buffers = record (new_buffer 65536) { free = false; allow_user_free = true } ∷ [];
  free_buffers = leaf;
  allocated_buffers = node leaf 65536 leaf;
}

abbrev left_by : BinderAlloc → Run BinderAlloc → BinderAlloc
left_by alloc bug = alloc
left_by alloc (ok a) = a

abbrev left_with_ptr : BinderAlloc → Run (BinderAlloc × Ptr) → BinderAlloc
left_with_ptr alloc bug = alloc
left_with_ptr alloc (ok r) = r.0

allocate_page_range-Outcome_example :
    Outcome mapped 0 3
      (allocate_page_range third_page_fails mapped (page_addr mapped 0) (page_addr mapped (0 + 3)))
allocate_page_range-Outcome_example =
    allocate_page_range-Outcome mapped 0 3 third_page_fails (omega arith)

-- Free buffers by size, each named by its size.
abbrev sizes : Tree
sizes = node (node leaf 16 leaf) 64 (node leaf 128 leaf)

Ends-best_fit_from_example :
    (fit : Fit) × (best_fit_from (λ x. true) (λ x. x) 24 none sizes ≡ ok fit)
    × Ends (λ x. true) (λ x. x) 24 none (in_order sizes) fit
Ends-best_fit_from_example =
    Ends-best_fit_from (λ x. true) (λ x. x) 24 sizes none
      ((omega arith, (omega arith, tt)), ((omega arith, tt), (tt, tt))) (refl, (refl, (refl, tt)))

binder_alloc_prepare_to_free_once_example :
    let a = (left_with_ptr handed (binder_alloc_prepare_to_free handed 65536)) in
    binder_alloc_prepare_to_free a 65536 ≡ ok (a, err_ptr Errno.eperm)
unfolding binder_alloc_prepare_to_free search_tree
binder_alloc_prepare_to_free_once_example =
    binder_alloc_prepare_to_free_once handed
      (left_with_ptr handed (binder_alloc_prepare_to_free handed 65536)) 65536 65536 refl

binder_alloc_new_buf-Granted_example :
    Always
      (Granted 100 8 0 true mapped.free_async_space)
      (binder_alloc_new_buf plain all_well mapped 100 8 0 true)
binder_alloc_new_buf-Granted_example =
    binder_alloc_new_buf-Granted 100 8 0 true plain all_well mapped

abbrev with_empty : BinderAlloc
with_empty = left_with_ptr mapped (binder_alloc_new_buf plain all_well mapped 0 0 0 true)

abbrev freed_again : BinderAlloc
freed_again = left_by mapped (binder_alloc_free_buf plain with_empty 65536)

binder_alloc_free_buf-binder_alloc_new_buf_space_example :
    freed_again.free_async_space ≡ space_after mapped.free_async_space 0 true
unfolding binder_alloc_new_buf binder_alloc_free_buf binder_alloc_buffer_size allocate_page_range
    binder_insert_free_buffer link binder_insert_allocated_buffer_locked binder_buffer_next
    free_page_range binder_delete_free_buffer binder_buffer_prev
binder_alloc_free_buf-binder_alloc_new_buf_space_example =
    binder_alloc_free_buf-binder_alloc_new_buf_space plain all_well mapped with_empty freed_again 0
      0 0 0 65536 true (omega arith) refl refl refl

-- A process that maps four pages, with all the memory it needs.
binder_alloc_mmap_handler-Maps_example :
    Gives
      (Maps (some 65536) 16384)
      (binder_alloc_mmap_handler plain enough_memory (unmapped binder_alloc_init) 4096 20480)
binder_alloc_mmap_handler-Maps_example =
    binder_alloc_mmap_handler-Maps plain enough_memory binder_alloc_init 4096 20480 found_low

-- Pages 0, 2, 4, ... are there.
abbrev every_other : ℕ → LruPage
every_other i = if i % 2 == 0 then active_page else absent_page

free_pages-FreesPages_example : FreesPages 4 every_other
free_pages-FreesPages_example = free_pages-FreesPages 4 every_other

-- The release of an allocator with one buffer handed out.
binder_alloc_deferred_release-Finishes_example :
    Finishes (binder_alloc_deferred_release plain 2 (binder_alloc_vma_close handed))
binder_alloc_deferred_release-Finishes_example =
    binder_alloc_deferred_release-Finishes plain 2 (binder_alloc_vma_close handed) (omega arith)
