-- ===== src/Alloc/Async/Handout.antt =====
-- What `binder_alloc_new_buf` takes of the space for asynchronous transactions.
use headless_testing.Base.{
  ℕ, ◌+◌, ◌≡◌, refl, ap, ◌∙◌, Bool, true, false, is_some, Bool-cases, Option-cases, inl, inr, not,
  ◌&&◌, Option, none, some, List, [], ◌∷◌, arith, ltb, ◌==◌, if◌then◌else◌, sub64, add64,
  page_align, if_both, if_cases,
}
use headless_testing.Kernel.{
  ok, ◌>>=◌, Ptr, ptr, err_ptr, Errno, Always, gives, Always-bind, Always-map, stops, Always-option,
}
use headless_testing.RbTree.{RbLib, Tree, leaf, node}
use headless_testing.Alloc.State.{
  BinderBuffer, BinderAlloc, new_buffer, find, update, insert_after, free_at,
  binder_alloc_buffer_size,
}
use headless_testing.Alloc.Pages.{Memory, allocate_page_range, free_page_range}
use headless_testing.Alloc.NewBuf.{
  sizeof_binder_buffer, checked_size, best_fit_from, end_page, split_buffer, hand_out, use_fit,
  binder_alloc_new_buf,
}
use headless_testing.Alloc.NewBuf.Sizes.{words, checked_size-words_sum}
use headless_testing.Alloc.Async.{
  allocate_page_range-SameSpace, free_page_range-SameSpace, insert_free-SameSpace,
  insert_allocated-SameSpace,
}

-- The size of the buffer for a request: never nothing.
abbrev pub padded : ℕ → ℕ
padded asked = if ltb asked 8 then 8 else asked

-- The async space after a buffer of `size` bytes was handed out.
abbrev pub charged : ℕ → ℕ → Bool → ℕ
charged space size is_async =
    if is_async then sub64 space (add64 size sizeof_binder_buffer) else space

-- Updates that keep addresses, and insertions, lose no buffer.
has-update :
    (d : ℕ) (f : BinderBuffer → BinderBuffer)
    → ((b : BinderBuffer) → (f b).data_addr ≡ b.data_addr)
    → (bs : List BinderBuffer) → is_some (find d (update d f bs)) ≡ is_some (find d bs)
has-update d f keeps [] = refl
has-update d f keeps (b ∷ bs) = elim (Bool-cases (b.data_addr == d)) [
  | inl e ↦ rw e (rw (keeps b, e) refl)
  | inr e ↦ rw (e, e) (has-update d f keeps bs)
]

has-insert_after :
    (d : ℕ) (new : BinderBuffer) (bs : List BinderBuffer)
    → is_some (find d bs) ≡ true
    → is_some (find d (insert_after d new bs)) ≡ true
has-insert_after d new [] h = absurd (cc)
has-insert_after d new (b ∷ bs) h = elim (Bool-cases (b.data_addr == d)) [
  | inl e ↦ rw (e, e) refl
  | inr e ↦ rw (e, e) (has-insert_after d new bs (rw e at h))
]

free_at-there : (d : ℕ) (bs : List BinderBuffer) → free_at bs d ≡ true → is_some (find d bs) ≡ true
free_at-there d bs h = elim (Option-cases (find d bs)) [
  | inl n ↦ absurd (let x = rw n at h in cc)
  | inr (b, e) ↦ rw e refl
]

-- The best fit is a free buffer.
best_fit_from-free :
    (is_free : ℕ → Bool) (size_of : ℕ → ℕ) (size : ℕ) (t : Tree) (best : Option ℕ)
    → ((d : ℕ) → best ≡ some d → is_free d ≡ true)
    → Always
        (λ fit. (d : ℕ) → fit.best_fit ≡ some d → is_free d ≡ true)
        (best_fit_from is_free size_of size best t)
unfolding best_fit_from
best_fit_from-free is_free size_of size leaf best h = gives h
best_fit_from-free is_free size_of size (node l x r) best h = elim (Bool-cases (is_free x)) [
  | inr e ↦ rw (e, best_fit_from) stops
  | inl e ↦
      let this : (d : ℕ) → some x ≡ some d → is_free d ≡ true = λ d s. cc in
      rw (e, best_fit_from)
        (elim (Bool-cases (ltb size (size_of x))) [
          | inl f ↦ rw f (best_fit_from-free is_free size_of size l (some x) this)
          | inr f ↦ rw f (elim (Bool-cases (ltb (size_of x) size)) [
            | inl g ↦ rw g (best_fit_from-free is_free size_of size r best h)
            | inr g ↦ rw g (gives this)
          ])
        ])
]

module _ (data_size offsets_size extra_buffers_size : ℕ) (is_async : Bool) where
  -- There is a buffer, and it carries the sizes of its request.
  pub data Filled : Option BinderBuffer → Type 0 where
    filled :
        {b : BinderBuffer}
        → b.data_size ≡ data_size
        → b.offsets_size ≡ offsets_size
        → b.extra_buffers_size ≡ extra_buffers_size
        → b.async_transaction ≡ is_async
        → Filled (some b)

  -- What `binder_alloc_new_buf` may return when it starts with `space`.
  pub data Granted (space : ℕ) : BinderAlloc × Ptr → Type 0 where
    refused :
        {a : BinderAlloc} {e : Errno} → a.free_async_space ≡ space → Granted space (a, err_ptr e)
    granted :
        {a : BinderAlloc} {d asked : ℕ}
        → checked_size data_size offsets_size extra_buffers_size ≡ some asked
        → asked ≡ words data_size + words offsets_size + words extra_buffers_size
        → ((is_async ≡ true) → ltb space (add64 asked sizeof_binder_buffer) ≡ false)
        → a.free_async_space ≡ charged space (padded asked) is_async
        → Filled (find d a.buffers)
        → Granted space (a, ptr d)

  abbrev fill : BinderBuffer → BinderBuffer
  fill b = record b {
    data_size = data_size;
    offsets_size = offsets_size;
    async_transaction = is_async;
    extra_buffers_size = extra_buffers_size;
  }

  find-update-Filled :
      (d : ℕ) (bs : List BinderBuffer)
      → is_some (find d bs) ≡ true
      → Filled (find d (update d fill bs))
  find-update-Filled d [] h = absurd (cc)
  find-update-Filled d (b ∷ bs) h = elim (Bool-cases (b.data_addr == d)) [
    | inl e ↦ rw (e, e) (filled refl refl refl refl)
    | inr e ↦ rw (e, e) (find-update-Filled d bs (rw e at h))
  ]

  module _ (rb : RbLib) where
    -- The buffer of which `fill` tells is there, and the request passed its checks.
    module _ (space asked : ℕ)
        (e : checked_size data_size offsets_size extra_buffers_size ≡ some asked)
        (room : (is_async ≡ true) → ltb space (add64 asked sizeof_binder_buffer) ≡ false) where
      hand_out-Granted :
          (alloc : BinderAlloc) (d : ℕ)
          → alloc.free_async_space ≡ space
          → is_some (find d alloc.buffers) ≡ true
          → Always (Granted space) (
              hand_out rb alloc d (padded asked) data_size offsets_size extra_buffers_size is_async)
      unfolding hand_out
      hand_out-Granted alloc d same there =
          let taken = record alloc {
            free_buffers = rb.rb_erase d alloc.free_buffers;
            buffers =
                update d (λ b. record b { free = false; allow_user_free = false }) alloc.buffers;
          } in
          Always-bind _ (insert_allocated-SameSpace rb taken d) (λ a s. gives (
            granted e (checked_size-words_sum data_size offsets_size extra_buffers_size asked e)
              room (ground (arith, s.space, same))
              (find-update-Filled d a.buffers (
                ap (λ l. is_some (find d l)) s.buffers
                ∙ has-update d _ (λ b. refl) alloc.buffers
                ∙ there))))

    split_buffer-Space :
        (alloc : BinderAlloc) (d size : ℕ)
        → is_some (find d alloc.buffers) ≡ true
        → Always
            (λ a.
              (a.free_async_space ≡ alloc.free_async_space) × (is_some (find d a.buffers) ≡ true))
            (split_buffer rb alloc d size)
    unfolding split_buffer
    split_buffer-Space alloc d size there =
        let longer = record alloc {
          buffers = insert_after d (new_buffer (add64 d size)) alloc.buffers;
        } in
        Always-map (insert_free-SameSpace rb longer (add64 d size)) (λ a s. (
          s.space,
          ap (λ l. is_some (find d l)) s.buffers
              ∙ has-insert_after d (new_buffer (add64 d size)) alloc.buffers there,
        ))

    module _ (space asked : ℕ)
        (e : checked_size data_size offsets_size extra_buffers_size ≡ some asked)
        (room : (is_async ≡ true) → ltb space (add64 asked sizeof_binder_buffer) ≡ false) where
      -- The buffer, once its pages are there.
      placed-Granted :
          (mem : Memory) (alloc : BinderAlloc) (d buffer_size start stop : ℕ)
          → alloc.free_async_space ≡ space
          → is_some (find d alloc.buffers) ≡ true
          → Always (Granted space) (
              if buffer_size == padded asked
              then hand_out rb alloc d
                  (padded asked)
                  data_size
                  offsets_size
                  extra_buffers_size
                  is_async
              else if mem.kzalloc
              then (split_buffer rb alloc d (padded asked) >>= λ alloc'.
                  hand_out rb alloc' d
                    (padded asked)
                    data_size
                    offsets_size
                    extra_buffers_size
                    is_async)
              else ok (free_page_range alloc start stop, err_ptr Errno.enomem))
      placed-Granted mem alloc d buffer_size start stop same there =
          let P = Always (Granted space) in
          if_both P (buffer_size == padded asked)
            (hand_out-Granted space asked e room alloc d same there)
            (if_both P mem.kzalloc
              (Always-bind
                (λ a.
                  hand_out rb a d (padded asked) data_size offsets_size extra_buffers_size is_async)
                (split_buffer-Space alloc d (padded asked) there)
                (λ a s. hand_out-Granted space asked e room a d (s.0 ∙ same) s.1))
              (gives
                (refused (let f = free_page_range-SameSpace alloc start stop in f.space ∙ same))))

      use_fit-Granted :
          (mem : Memory) (alloc : BinderAlloc) (d : ℕ)
          → alloc.free_async_space ≡ space
          → is_some (find d alloc.buffers) ≡ true
          → Always (Granted space) (
              use_fit rb mem alloc d
                (padded asked)
                data_size
                offsets_size
                extra_buffers_size
                is_async)
      unfolding use_fit
      use_fit-Granted mem alloc d same there =
          let stop = end_page d (binder_alloc_buffer_size alloc d) (padded asked) in
          let paged = allocate_page_range mem alloc (page_align d) stop in
          let s = allocate_page_range-SameSpace mem alloc (page_align d) stop in
          Always-option paged.1 {f = λ x. ok (paged.0, err_ptr x)}
            (placed-Granted mem paged.0 d (binder_alloc_buffer_size alloc d) (page_align d) stop
              (s.space ∙ same) (ap (λ l. is_some (find d l)) s.buffers ∙ there))
            (λ x _. gives (refused {a = paged.0} {e = x} (s.space ∙ same)))

    -- When `binder_alloc_new_buf` hands a buffer out, that buffer is there and carries the sizes
    -- asked for. For an asynchronous transaction the async space was not below, in 64 bits, the sum
    -- of the sizes, each rounded up to 8, with a buffer's bookkeeping, and is charged for both, the
    -- sum padded to 8 if it is 0; for any other it is unchanged. With every error it is as it was.
    pub binder_alloc_new_buf-Granted :
        (mem : Memory) (alloc : BinderAlloc)
        → Always
            (Granted alloc.free_async_space)
            (binder_alloc_new_buf rb mem alloc data_size offsets_size extra_buffers_size is_async)
    unfolding binder_alloc_new_buf
    binder_alloc_new_buf-Granted mem alloc =
        let P = Always (Granted alloc.free_async_space) in
        if_both P (not alloc.vma) (gives (refused refl)) (
          Always-option (checked_size data_size offsets_size extra_buffers_size)
            (gives (refused refl))
            (λ asked e.
              let short = ltb alloc.free_async_space (add64 asked sizeof_binder_buffer) in
              if_cases P (is_async && short) (λ _. gives (refused refl))
                (λ enough.
                  Always-bind _
                    (best_fit_from-free (free_at alloc.buffers) (binder_alloc_buffer_size alloc)
                      (padded asked) alloc.free_buffers none (λ d h. absurd (cc)))
                    (λ fit free. Always-option fit.best_fit (gives (refused refl)) (λ d h.
                      use_fit-Granted alloc.free_async_space asked e (λ async. rw async at enough)
                        mem alloc d refl (free_at-there d alloc.buffers (free d h)))))))
