-- ===== src/Alloc/Async/GiveBack.antt =====
-- What `binder_alloc_free_buf` gives back of the space for asynchronous transactions.
use headless_testing.Base.{
  ℕ, ◌<◌, ◌^◌, ◌≡◌, refl, Bool, true, false, ◌&&◌, some, arith, ltb, ◌==◌, if◌then◌else◌, sub64,
  add64, page_mask, page_align, subst, Bool-cases, Option-cases, inl, inr, ◌∙◌,
}
use headless_testing.Kernel.{ok, bug, ptr, Always, Always-map, Always-ok}
use headless_testing.RbTree.{RbLib}
use headless_testing.Alloc.State.{BinderBuffer, BinderAlloc, find, binder_alloc_buffer_size}
use headless_testing.Alloc.Pages.{Memory}
use headless_testing.Alloc.NewBuf.{sizeof_binder_buffer, checked_size, binder_alloc_new_buf}
use headless_testing.Alloc.NewBuf.Sizes.{checked_size-sum, checked_size-words}
use headless_testing.Alloc.FreeBuf.{asked_size, give_back, binder_alloc_free_buf}
use headless_testing.Alloc.FreeBuf.Keeps.{binder_alloc_free_buf-Keeps}
use headless_testing.Alloc.Async.{free_page_range-SameSpace}
use headless_testing.Alloc.Async.Handout.{
  padded, charged, Filled, filled, Granted, granted, binder_alloc_new_buf-Granted,
}

-- The allocator has `space` left for asynchronous transactions.
pub record HasSpace (space : ℕ) (a : BinderAlloc) : Type 0 where
  pub same : a.free_async_space ≡ space

-- The async space once buffer `b` is free.
abbrev pub refunded : ℕ → BinderBuffer → ℕ
refunded space b =
    if b.async_transaction then add64 space (add64 (asked_size b) sizeof_binder_buffer) else space

module _ (rb : RbLib) where
  give_back-HasSpace :
      (alloc : BinderAlloc) (b : BinderBuffer)
      → HasSpace (refunded alloc.free_async_space b) (give_back rb alloc b)
  unfolding give_back
  give_back-HasSpace alloc b =
      let d = b.data_addr in
      let stop = page_mask (add64 d (binder_alloc_buffer_size alloc d)) in
      let paid = record alloc { free_async_space = refunded alloc.free_async_space b } in
      record { same = (free_page_range-SameSpace paid (page_align d) stop).space }

  binder_alloc_free_buf-HasSpace :
      (alloc : BinderAlloc) (d : ℕ) (b : BinderBuffer)
      → find d alloc.buffers ≡ some b
      → Always (HasSpace (refunded alloc.free_async_space b)) (binder_alloc_free_buf rb alloc d)
  binder_alloc_free_buf-HasSpace alloc d b e =
      Always-map
        (binder_alloc_free_buf-Keeps (λ a. a.free_async_space)
          (λ a start end. (free_page_range-SameSpace a start end).space) (λ a bs. refl)
          (λ a t. refl) rb alloc d b e)
        (λ a k. record { same = k.same ∙ (give_back-HasSpace alloc b).same })

-- What a buffer with the sizes of its request asked for.
asked_of_Filled :
    (ds os es asked : ℕ) (is_async : Bool) (b : BinderBuffer)
    → checked_size ds os es ≡ some asked
    → Filled ds os es is_async (some b)
    → (asked_size b ≡ asked) × (b.async_transaction ≡ is_async)
asked_of_Filled ds os es asked is_async b e (filled d o x a) =
    (rw (d, o, x) (checked_size-sum ds os es asked e), a)

-- The space that is left once a buffer was handed out and given back.
abbrev pub space_after : ℕ → ℕ → Bool → ℕ
space_after space asked is_async = if is_async && asked == 0 then sub64 space 8 else space

paid_back :
    (space asked : ℕ) (is_async : Bool)
    → space < 2 ^ 64
    → asked < 2 ^ 64
    → ((asked < 8) → asked ≡ 0)
    → (if is_async
        then add64 (charged space (padded asked) is_async) (add64 asked sizeof_binder_buffer)
        else charged space (padded asked) is_async)
      ≡ space_after space asked is_async
paid_back space asked false small bound words = refl
paid_back space asked true small bound words = elim (Bool-cases (ltb asked 8)) [
  | inl h ↦ let z = words (ground arith) in ground (arith, z)
  | inr h ↦ ground arith
]

refunded-charged :
    (ds os es asked space : ℕ) (is_async : Bool) (b : BinderBuffer)
    → checked_size ds os es ≡ some asked
    → Filled ds os es is_async (some b)
    → space < 2 ^ 64
    → refunded (charged space (padded asked) is_async) b ≡ space_after space asked is_async
refunded-charged ds os es asked space is_async b e f small =
    let (size, async) = asked_of_Filled ds os es asked is_async b e f in
    let (bound, words) = checked_size-words ds os es asked e in
    rw (size, async) (paid_back space asked is_async small bound words)

module _ (rb : RbLib) where
  -- A grant, read back.
  Granted-refunded :
      (ds os es asked space d : ℕ) (is_async : Bool) (a' a'' : BinderAlloc)
      → space < 2 ^ 64
      → checked_size ds os es ≡ some asked
      → Granted ds os es is_async space (a', ptr d)
      → binder_alloc_free_buf rb a' d ≡ ok a''
      → a''.free_async_space ≡ space_after space asked is_async
  unfolding binder_alloc_free_buf
  Granted-refunded ds os es asked space d is_async a' a'' small e
        (granted {asked = asked'} e' _ _ s f) free =
      elim (Option-cases (find d a'.buffers)) [
        | inl n ↦
            absurd (
              let x : binder_alloc_free_buf rb a' d ≡ bug = rw (n, binder_alloc_free_buf) refl in
              cc)
        | inr (b, g) ↦
            let same : asked' ≡ asked = cc in
            let left = Always-ok (
              subst (Always (HasSpace (refunded a'.free_async_space b))) free
                (binder_alloc_free_buf-HasSpace rb a' d b g)) in
            let f' = subst (Filled ds os es is_async) g f in
            let r = refunded-charged ds os es asked space is_async b e f' small in
            let step : refunded a'.free_async_space b
                ≡ refunded (charged space (padded asked) is_async) b =
              rw (s, same) refl in
            let kept = left.same in cc
      ]

  -- A buffer that was handed out and is freed again gives back the asynchronous space that it took,
  -- except that an asynchronous request of size 0 leaves 8 bytes less: it is charged for the 8
  -- bytes it is padded to, and refunded for none.
  pub binder_alloc_free_buf-binder_alloc_new_buf_space :
      (mem : Memory) (alloc a' a'' : BinderAlloc) (ds os es asked d : ℕ) (is_async : Bool)
      → alloc.free_async_space < 2 ^ 64
      → checked_size ds os es ≡ some asked
      → binder_alloc_new_buf rb mem alloc ds os es is_async ≡ ok (a', ptr d)
      → binder_alloc_free_buf rb a' d ≡ ok a''
      → a''.free_async_space ≡ space_after alloc.free_async_space asked is_async
  binder_alloc_free_buf-binder_alloc_new_buf_space mem alloc a' a'' ds os es asked d is_async small
        e new free =
      Granted-refunded ds os es asked alloc.free_async_space d is_async a' a'' small e
        (Always-ok (
          subst (Always (Granted ds os es is_async alloc.free_async_space)) new
            (binder_alloc_new_buf-Granted ds os es is_async rb mem alloc)))
        free
