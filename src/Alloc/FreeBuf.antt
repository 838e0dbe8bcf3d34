-- ===== src/Alloc/FreeBuf.antt =====
-- `binder_alloc_free_buf`: give a buffer back and merge it with its free neighbours.
pub mod Keeps
use headless_testing.Base.{
  ℕ, Bool, true, false, not, ◌&&◌, Option, none, some, ltb, ◌==◌, if◌then◌else◌, sub64, add64,
  align8, page_mask, page_align, page_aligned, page_size, is_some,
}
use headless_testing.Kernel.{Run, ok, bug, ◌>>=◌, ◌>>◌, bug_on}
use headless_testing.RbTree.{RbLib}
use headless_testing.Alloc.State.{
  BinderBuffer, BinderAlloc, find, update, list_del, binder_buffer_next, binder_buffer_prev,
  binder_alloc_buffer_size, binder_insert_free_buffer,
}
use headless_testing.Alloc.Pages.{free_page_range}
use headless_testing.Alloc.NewBuf.{sizeof_binder_buffer}

abbrev pub buffer_start_page : ℕ → ℕ
buffer_start_page = page_mask

abbrev pub prev_buffer_end_page : ℕ → ℕ
prev_buffer_end_page d = page_mask (sub64 d 1)

-- Does the next buffer begin in the page of `d`?
abbrev pub shares_page : ℕ → Option BinderBuffer → Bool
shares_page d none = false
shares_page d (some c) = buffer_start_page c.data_addr == buffer_start_page d

-- `binder_delete_free_buffer`: the page in which the buffer starts is freed, unless a neighbour or
-- an aligned start needs it, and the buffer leaves the list.
unfoldable pub binder_delete_free_buffer : BinderAlloc → ℕ → Run BinderAlloc
binder_delete_free_buffer alloc d = elim (binder_buffer_prev d alloc.buffers) [
  | none ↦ bug
  | some p ↦ do
    bug_on (not p.free)
    let to_free =
        not (prev_buffer_end_page p.data_addr == buffer_start_page d)
        && not (shares_page d (binder_buffer_next d alloc.buffers))
        && not (page_aligned d)
    let freed =
        if to_free
        then free_page_range alloc (buffer_start_page d) (add64 (buffer_start_page d) page_size)
        else alloc
    ok (record freed { buffers = list_del d freed.buffers })
]

-- What the buffer asked for, each part rounded up.
abbrev pub asked_size : BinderBuffer → ℕ
asked_size b =
    add64 (add64 (align8 b.data_size) (align8 b.offsets_size)) (align8 b.extra_buffers_size)

-- The BUG_ONs of `binder_free_buf_locked`.
abbrev pub check_freeable : BinderAlloc → BinderBuffer → Run (Unit {0})
check_freeable alloc b = do
  bug_on b.free
  bug_on (ltb (binder_alloc_buffer_size alloc b.data_addr) (asked_size b))
  bug_on (is_some b.transaction)
  bug_on (ltb b.data_addr alloc.buffer)
  bug_on (ltb (add64 alloc.buffer alloc.buffer_size) b.data_addr)

module _ (rb : RbLib) where
  -- Swallow the next buffer if it is free.
  unfoldable pub merge_next : BinderAlloc → ℕ → Run BinderAlloc
  merge_next alloc d = elim (binder_buffer_next d alloc.buffers) [
    | none ↦ ok alloc
    | some c ↦
        if c.free
        then binder_delete_free_buffer
            (record alloc { free_buffers = rb.rb_erase c.data_addr alloc.free_buffers }) c.data_addr
        else ok alloc
  ]

  -- Be swallowed by the previous buffer if it is free, and say which buffer is left.
  unfoldable pub merge_prev : BinderAlloc → ℕ → Run (BinderAlloc × ℕ)
  merge_prev alloc d = elim (binder_buffer_prev d alloc.buffers) [
    | none ↦ ok (alloc, d)
    | some p ↦
        if p.free
        then (binder_delete_free_buffer alloc d >>= λ alloc'. ok (
          record alloc' { free_buffers = rb.rb_erase p.data_addr alloc'.free_buffers },
          p.data_addr,
        ))
        else ok (alloc, d)
  ]

  -- The async space, the pages and the allocated tree.
  unfoldable pub give_back : BinderAlloc → BinderBuffer → BinderAlloc
  give_back alloc b =
      let d = b.data_addr in
      let space =
        if b.async_transaction
        then add64 alloc.free_async_space (add64 (asked_size b) sizeof_binder_buffer)
        else alloc.free_async_space in
      let stop = page_mask (add64 d (binder_alloc_buffer_size alloc d)) in
      let freed = free_page_range (record alloc { free_async_space = space }) (page_align d) stop in
      record freed {
        allocated_buffers = rb.rb_erase d freed.allocated_buffers;
        buffers = update d (λ c. record c { free = true }) freed.buffers;
      }

  -- `binder_alloc_free_buf`: the mutex makes the body one step.
  unfoldable pub binder_alloc_free_buf : BinderAlloc → ℕ → Run BinderAlloc
  unfolding give_back merge_next merge_prev
  binder_alloc_free_buf alloc d = elim (find d alloc.buffers) [
    | none ↦ bug
    | some b ↦ do
      check_freeable alloc b
      merged ← merge_next (give_back alloc b) d
      (left, kept) ← merge_prev merged d
      binder_insert_free_buffer rb left kept
  ]
