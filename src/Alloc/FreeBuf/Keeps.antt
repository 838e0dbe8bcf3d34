-- ===== src/Alloc/FreeBuf/Keeps.antt =====
-- What `binder_alloc_free_buf` leaves alone once the buffer is marked free.
use headless_testing.Base.{
  ℕ, ◌≡◌, refl, ◌∙◌, not, ◌&&◌, some, List, ◌==◌, if◌then◌else◌, add64, if_both, page_size,
  page_aligned,
}
use headless_testing.Kernel.{
  ok, ◌>>=◌, Always, stops, gives, Always-bind, Always-any, Always-option, Always-bug_on,
}
use headless_testing.RbTree.{RbLib, Tree, link}
use headless_testing.Alloc.State.{
  BinderBuffer, BinderAlloc, find, binder_buffer_next, binder_buffer_prev, binder_alloc_buffer_size,
  binder_insert_free_buffer, free_at, by_size,
}
use headless_testing.Alloc.Pages.{free_page_range}
use headless_testing.Alloc.FreeBuf.{
  buffer_start_page, prev_buffer_end_page, shares_page, binder_delete_free_buffer, check_freeable,
  merge_next, merge_prev, give_back, binder_alloc_free_buf,
}

-- A part `f` of the allocator that depends on neither the pages, the list nor the free tree.
module _ {X : Type 0} (f : BinderAlloc → X)
    (pages_lem : (a : BinderAlloc) (start end : ℕ) → f (free_page_range a start end) ≡ f a)
    (buffers_lem : (a : BinderAlloc) (bs : List BinderBuffer) → f (record a { buffers = bs }) ≡ f a)
    (free_lem : (a : BinderAlloc) (t : Tree) → f (record a { free_buffers = t }) ≡ f a) where
  -- The part is `x`.
  pub record Keeps (x : X) (a : BinderAlloc) : Type 0 where
    pub same : f a ≡ x

  delete-Keeps :
      (x : X) (alloc : BinderAlloc) (d : ℕ)
      → Keeps x alloc
      → Always (Keeps x) (binder_delete_free_buffer alloc d)
  unfolding binder_delete_free_buffer
  delete-Keeps x alloc d h = Always-option (binder_buffer_prev d alloc.buffers) stops (λ p _.
      Always-bug_on (not p.free) (
        let to_free =
          not (prev_buffer_end_page p.data_addr == buffer_start_page d)
          && not (shares_page d (binder_buffer_next d alloc.buffers))
          && not (page_aligned d) in
        let start = buffer_start_page d in
        let end = add64 start page_size in
        let freed = if to_free then free_page_range alloc start end else alloc in
        let s : Keeps x freed =
          if_both (Keeps x) to_free (record { same = pages_lem alloc start end ∙ h.same }) h in
        gives (record { same = buffers_lem freed _ ∙ s.same })))

  module _ (rb : RbLib) where
    insert_free-Keeps :
        (x : X) (alloc : BinderAlloc) (d : ℕ)
        → Keeps x alloc
        → Always (Keeps x) (binder_insert_free_buffer rb alloc d)
    unfolding binder_insert_free_buffer
    insert_free-Keeps x alloc d h =
        let size_of = binder_alloc_buffer_size alloc in
        Always-bug_on (not (free_at alloc.buffers d)) (
          Always-any (link (by_size size_of alloc.buffers (size_of d)) d alloc.free_buffers)
            (λ t. gives (record { same = free_lem alloc (rb.rb_insert_color d t) ∙ h.same })))

    merge_next-Keeps :
        (x : X) (alloc : BinderAlloc) (d : ℕ)
        → Keeps x alloc
        → Always (Keeps x) (merge_next rb alloc d)
    unfolding merge_next
    merge_next-Keeps x alloc d h =
        Always-option (binder_buffer_next d alloc.buffers) (gives h) (λ c _.
          let t = rb.rb_erase c.data_addr alloc.free_buffers in
          if_both (Always (Keeps x)) c.free
            (delete-Keeps x (record alloc { free_buffers = t }) c.data_addr
              (record { same = free_lem alloc t ∙ h.same }))
            (gives h))

    merge_prev-Keeps :
        (x : X) (alloc : BinderAlloc) (d : ℕ)
        → Keeps x alloc
        → Always (λ (r : BinderAlloc × ℕ). Keeps x r.0) (merge_prev rb alloc d)
    unfolding merge_prev
    merge_prev-Keeps x alloc d h =
        let P = Always (λ (r : BinderAlloc × ℕ). Keeps x r.0) in
        Always-option (binder_buffer_prev d alloc.buffers) (gives h) (λ p _.
          if_both P p.free
            (Always-bind
              (λ a.
                ok
                  (record a { free_buffers = rb.rb_erase p.data_addr a.free_buffers }, p.data_addr))
              (delete-Keeps x alloc d h)
              (λ a s.
                gives
                  (record { same = free_lem a (rb.rb_erase p.data_addr a.free_buffers) ∙ s.same })))
            (gives h))

    -- The merges and the insertion leave the part as marking the buffer free left it.
    pub binder_alloc_free_buf-Keeps :
        (alloc : BinderAlloc) (d : ℕ) (b : BinderBuffer)
        → find d alloc.buffers ≡ some b
        → Always (Keeps (f (give_back rb alloc b))) (binder_alloc_free_buf rb alloc d)
    unfolding binder_alloc_free_buf
    binder_alloc_free_buf-Keeps alloc d b e =
        let x = f (give_back rb alloc b) in
        rw (e, binder_alloc_free_buf)
          (Always-any (check_freeable alloc b) (λ _.
            Always-bind
              (λ merged. merge_prev rb merged d >>= λ r. binder_insert_free_buffer rb r.0 r.1)
              (merge_next-Keeps x (give_back rb alloc b) d (record { same = refl }))
              (λ merged s.
                Always-bind (λ r. binder_insert_free_buffer rb r.0 r.1)
                  (merge_prev-Keeps x merged d s) (λ r t. insert_free-Keeps x r.0 r.1 t))))
