-- ===== src/Alloc/Mmap/Mapped.antt =====
-- What `binder_alloc_mmap_handler` makes of an allocator that is not mapped.
use headless_testing.Base.{
  ℕ, ◌/◌, ◌<◌, ◌^◌, ◌≡◌, refl, true, Option, none, some, [], ◌∷◌, arith, sub64, ◌==◌, not, if_both,
  Option-cases, inl, inr,
}
use headless_testing.Kernel.{ok, Errno, Gives, gave}
use headless_testing.RbTree.{leaf, node, in_order, RbLib, link}
use headless_testing.Alloc.State.{
  BinderAlloc, new_buffer, binder_alloc_buffer_size, binder_insert_free_buffer,
}
use headless_testing.Alloc.Pages.{absent_page}
use headless_testing.Alloc.Mmap.{MmapMemory, map_area, binder_alloc_mmap_handler}

-- An allocator without an area, as after init and after every failed mmap.
abbrev pub unmapped : BinderAlloc → BinderAlloc
unmapped alloc = record alloc { buffer = 0; buffers = []; free_buffers = leaf }

-- The area at `addr` of `size` bytes is one free buffer, without pages.
pub record IsMapped (addr size : ℕ) (a : BinderAlloc) : Type 0 where
  pub placed : a.buffer ≡ addr
  pub one_buffer : a.buffers ≡ new_buffer addr ∷ []
  pub one_free : in_order a.free_buffers ≡ addr ∷ []
  pub whole : binder_alloc_buffer_size a addr ≡ size
  pub half_async : a.free_async_space ≡ size / 2
  pub has_vma : a.vma ≡ true
  pub no_pages : (i : ℕ) → a.pages i ≡ absent_page

-- How an mmap ends: without memory and ready for another try, or with the area that was found.
pub data Maps (area : Option ℕ) (size : ℕ) : BinderAlloc × Option Errno → Type 0 where
  no_memory :
      {a : BinderAlloc}
      → a.buffer ≡ 0
      → a.buffers ≡ []
      → a.free_buffers ≡ leaf
      → Maps area size (a, some Errno.enomem)
  mapped :
      {a : BinderAlloc} {addr : ℕ}
      → area ≡ some addr
      → IsMapped addr size a
      → Maps area size (a, none)

same_self : (a : ℕ) → (a == a) ≡ true
same_self a = ground arith

module _ (rb : RbLib) (mem : MmapMemory) (alloc : BinderAlloc) (vm_start vm_end : ℕ) where
  -- The first buffer goes into the empty tree.
  insert_first :
      (a : BinderAlloc) (addr : ℕ)
      → let one = record a { buffers = new_buffer addr ∷ []; free_buffers = leaf } in
        binder_insert_free_buffer rb one addr
        ≡ ok (record one { free_buffers = rb.rb_insert_color addr (node leaf addr leaf) })
  unfolding binder_insert_free_buffer link
  insert_first a addr = rw (same_self addr) refl

  whole_area :
      (a : BinderAlloc) (addr size : ℕ)
      → addr < 2 ^ 64
      → size < 2 ^ 64
      → binder_alloc_buffer_size
          (record a { buffer = addr; buffer_size = size; buffers = new_buffer addr ∷ [] })
          addr
        ≡ size
  unfolding binder_alloc_buffer_size
  whole_area a addr size la ls = rw (same_self addr) (omega arith)

  map_area-Maps :
      (addr : ℕ)
      → mem.get_vm_area ≡ some addr
      → addr < 2 ^ 64
      → Gives
          (Maps mem.get_vm_area (sub64 vm_end vm_start))
          (map_area rb mem (unmapped alloc) vm_start vm_end addr)
  unfolding map_area
  map_area-Maps addr e lt =
      let size = sub64 vm_end vm_start in
      let P = Gives (Maps mem.get_vm_area size) in
      let area = record alloc {
        buffer = addr;
        user_buffer_offset = sub64 vm_start addr;
        has_pages = true;
        pages = λ i. absent_page;
        buffer_size = size;
      } in
      let done = record area {
        buffers = new_buffer addr ∷ [];
        free_buffers = rb.rb_insert_color addr (node leaf addr leaf);
        vma = true;
        vma_vm_mm = true;
        free_async_space = size / 2;
      } in
      if_both P (not mem.kzalloc_pages) (gave (no_memory refl refl refl)) (
        if_both P (not mem.kzalloc_buffer) (gave (no_memory refl refl refl)) (
          rw (insert_first area addr) (
            gave (
              mapped {a = done} {addr = addr} e (record {
                placed = refl;
                one_buffer = refl;
                one_free = rb.in_order-rb_insert_color addr (node leaf addr leaf);
                whole = whole_area done addr size lt (omega arith);
                half_async = refl;
                has_vma = refl;
                no_pages = λ i. refl;
              })))))

  -- An mmap of an allocator that is not mapped meets no BUG. It fails with -ENOMEM and leaves the
  -- allocator not mapped, or it makes the whole area that the kernel found one free buffer without
  -- pages, half of it for asynchronous transactions. The area's address is below 2 ^ 64.
  pub binder_alloc_mmap_handler-Maps :
      ((addr : ℕ) → mem.get_vm_area ≡ some addr → addr < 2 ^ 64)
      → Gives
          (Maps mem.get_vm_area (sub64 vm_end vm_start))
          (binder_alloc_mmap_handler rb mem (unmapped alloc) vm_start vm_end)
  unfolding binder_alloc_mmap_handler
  binder_alloc_mmap_handler-Maps small = elim (Option-cases mem.get_vm_area) [
    | inl e ↦ rw (e, binder_alloc_mmap_handler) (gave (no_memory refl refl refl))
    | inr (addr, e) ↦
        let m = map_area-Maps addr e (small addr e) in rw (e, binder_alloc_mmap_handler) (rw e at m)
  ]
