-- ===== src/Alloc/NewBuf.antt =====
-- `binder_alloc_new_buf`: the sizes, the best-fit search, the split.
pub mod BestFit
pub mod Sizes
use headless_testing.Base.{
  ℕ, ◌+◌, ◌<◌, Bool, true, false, not, ◌&&◌, ◌||◌, Option, none, some, ltb, ◌==◌, if◌then◌else◌,
  sub64, add64, align8, page_mask, page_align,
}
use headless_testing.Kernel.{Run, ok, bug, ◌>>=◌, ◌>>◌, bug_on, Ptr, ptr, null_ptr, err_ptr, Errno}
use headless_testing.RbTree.{Tree, leaf, node, RbLib}
use headless_testing.Alloc.State.{
  BinderBuffer, BinderAlloc, new_buffer, update, insert_after, free_at, binder_alloc_buffer_size,
  binder_insert_free_buffer, binder_insert_allocated_buffer_locked,
}
use headless_testing.Alloc.Pages.{Memory, allocate_page_range, free_page_range}

-- `sizeof(struct binder_buffer)` on a 64-bit kernel.
abbrev pub sizeof_binder_buffer : ℕ
sizeof_binder_buffer = 96

-- The size that a buffer must have, or the error of a size that wraps.
unfoldable pub checked_size : ℕ → ℕ → ℕ → Option ℕ
checked_size data_size offsets_size extra_buffers_size =
    let data_offsets_size = add64 (align8 data_size) (align8 offsets_size) in
    let size = add64 data_offsets_size (align8 extra_buffers_size) in
    if ltb data_offsets_size data_size || ltb data_offsets_size offsets_size
    then none
    else if ltb size data_offsets_size || ltb size extra_buffers_size
    then none
    else some size

-- What the best-fit walk ends with: `best_fit`, and whether `n` is still an element.
pub record Fit : Type 0 where
  pub best_fit : Option ℕ
  pub exact : Bool

unfoldable pub best_fit_from : (ℕ → Bool) → (ℕ → ℕ) → ℕ → Option ℕ → Tree → Run Fit
best_fit_from is_free size_of size best leaf = ok (record { best_fit = best; exact = false })
best_fit_from is_free size_of size best (node l x r) = elim (is_free x) [
  | false ↦ bug
  | true ↦ elim (ltb size (size_of x)) [
    | true ↦ best_fit_from is_free size_of size (some x) l
    | false ↦ elim (ltb (size_of x) size) [
      | true ↦ best_fit_from is_free size_of size best r
      | false ↦ ok (record { best_fit = some x; exact = true })
    ]
  ]
]

-- The pages that a buffer at `d` needs of its own, for `size` bytes out of `buffer_size`.
abbrev pub end_page : ℕ → ℕ → ℕ → ℕ
end_page d buffer_size size =
    let has_page_addr = page_mask (add64 d buffer_size) in
    let end_page_addr = page_align (add64 d size) in
    if ltb has_page_addr end_page_addr then has_page_addr else end_page_addr

module _ (rb : RbLib) where
  -- Cut what is left over into a new free buffer behind `d`.
  unfoldable pub split_buffer : BinderAlloc → ℕ → ℕ → Run BinderAlloc
  split_buffer alloc d size =
      binder_insert_free_buffer rb
        (record alloc { buffers = insert_after d (new_buffer (add64 d size)) alloc.buffers })
        (add64 d size)

  -- Hand the buffer out: out of the free tree, into the allocated one, with the caller's sizes.
  unfoldable pub hand_out : BinderAlloc → ℕ → ℕ → ℕ → ℕ → ℕ → Bool → Run (BinderAlloc × Ptr)
  hand_out alloc d size data_size offsets_size extra_buffers_size is_async = do
    let taken = record alloc {
      free_buffers = rb.rb_erase d alloc.free_buffers;
      buffers = update d (λ b. record b { free = false; allow_user_free = false }) alloc.buffers;
    }
    alloc' ← binder_insert_allocated_buffer_locked rb taken d
    let filled =
        update d
          (λ b. record b {
            data_size = data_size;
            offsets_size = offsets_size;
            async_transaction = is_async;
            extra_buffers_size = extra_buffers_size;
          })
          alloc'.buffers
    ok (
      record alloc' {
        buffers = filled;
        free_async_space =
            if is_async
            then sub64 alloc'.free_async_space (add64 size sizeof_binder_buffer)
            else alloc'.free_async_space;
      },
      ptr d,
    )

  -- From the best fit on: its pages, the split, and the hand-over.
  unfoldable pub use_fit : Memory → BinderAlloc → ℕ → ℕ → ℕ → ℕ → ℕ → Bool → Run (BinderAlloc × Ptr)
  unfolding split_buffer hand_out
  use_fit mem alloc d size data_size offsets_size extra_buffers_size is_async =
      let buffer_size = binder_alloc_buffer_size alloc d in
      let stop = end_page d buffer_size size in
      let (paged, failed) = allocate_page_range mem alloc (page_align d) stop in
      elim failed [
        | some e ↦ ok (paged, err_ptr e)
        | none ↦
            if buffer_size == size
            then hand_out paged d size data_size offsets_size extra_buffers_size is_async
            else if mem.kzalloc
            then (split_buffer paged d size >>= λ alloc'.
                hand_out alloc' d size data_size offsets_size extra_buffers_size is_async)
            else ok (free_page_range paged (page_align d) stop, err_ptr Errno.enomem)
      ]

  -- `binder_alloc_new_buf`: the mutex makes the body one step.
  unfoldable pub binder_alloc_new_buf :
      Memory → BinderAlloc → ℕ → ℕ → ℕ → Bool → Run (BinderAlloc × Ptr)
  unfolding checked_size best_fit_from use_fit
  binder_alloc_new_buf mem alloc data_size offsets_size extra_buffers_size is_async =
      if not alloc.vma
      then ok (alloc, err_ptr Errno.esrch)
      else elim (checked_size data_size offsets_size extra_buffers_size) [
        | none ↦ ok (alloc, err_ptr Errno.einval)
        | some asked ↦
            if is_async && ltb alloc.free_async_space (add64 asked sizeof_binder_buffer)
            then ok (alloc, err_ptr Errno.enospc)
            else let size = if ltb asked 8 then 8 else asked in
              best_fit_from (free_at alloc.buffers) (binder_alloc_buffer_size alloc) size none
                alloc.free_buffers
              >>= λ fit. elim fit.best_fit [
                | none ↦ ok (alloc, err_ptr Errno.enospc)
                | some d ↦
                    use_fit mem alloc d size data_size offsets_size extra_buffers_size is_async
              ]
      ]
