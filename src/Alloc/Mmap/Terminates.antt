-- ===== src/Alloc/Mmap/Terminates.antt =====
-- The release of an allocator ends.
use headless_testing.Base.{
  ℕ, zero, suc, ◌+◌, ◌-◌, ◌/◌, ◌<◌, ◌≡◌, refl, ◌∙◌, true, false, Option, some, List, [], ◌∷◌, arith,
  ◌==◌, erase, length, leb, if_both, page_size, Option-cases, Bool-cases, inl, inr, is_some, sym,
}
use headless_testing.Base.{ap, ◌⊎◌, subst}
use headless_testing.Kernel.{
  Run, ok, bug, ◌>>=◌, bug_on, Always, stops, gives, Always-map, Finishes, crashed, finished,
  Finishes-any,
}
use headless_testing.RbTree.{RbLib, in_order, rb_first}
use headless_testing.Alloc.State.{BinderAlloc, BinderBuffer, find}
use headless_testing.Alloc.Pages.{free_page_range, free_range}
use headless_testing.Alloc.FreeBuf.{binder_alloc_free_buf, give_back}
use headless_testing.Alloc.FreeBuf.Keeps.{binder_alloc_free_buf-Keeps}
use headless_testing.Alloc.Mmap.{free_allocated, binder_alloc_deferred_release, finish_release}

allocated-free_range :
    (n : ℕ) (a : BinderAlloc) (stop : ℕ)
    → (free_range a stop n).allocated_buffers ≡ a.allocated_buffers
unfolding free_range
allocated-free_range zero a stop = refl
allocated-free_range (suc n) a stop = allocated-free_range n _ _

record SameTree (a c : BinderAlloc) : Type 0 where
  pub same : c.allocated_buffers ≡ a.allocated_buffers

allocated-free_page_range :
    (a : BinderAlloc) (start end : ℕ)
    → (free_page_range a start end).allocated_buffers ≡ a.allocated_buffers
unfolding free_page_range
allocated-free_page_range a start end =
    let s : SameTree a (free_page_range a start end) =
      if_both (SameTree a) (leb end start) (record { same = refl })
        (record { same = allocated-free_range ((end - start) / page_size) a end }) in
    s.same

erase-head : (d : ℕ) (xs : List ℕ) → erase d (d ∷ xs) ≡ xs
erase-head d xs = ground arith

List-cases : (xs : List ℕ) → (xs ≡ []) ⊎ ((x : ℕ) × (ys : List ℕ) × (xs ≡ x ∷ ys))
List-cases [] = inl refl
List-cases (x ∷ xs) = inr (x, xs, refl)

Finishes-elim :
    {A B : Type 0} {P : A → Type 0} {m : Run A} (f : A → Run (Option B))
    → Always P m
    → ((a : A) → P a → Finishes (f a))
    → Finishes (elim m [ ok a ↦ f a | bug ↦ bug ])
Finishes-elim f stops k = crashed
Finishes-elim f (gives {a = a} p) k = k a p

data_addr-find :
    (d : ℕ) (bs : List BinderBuffer) (b : BinderBuffer) → find d bs ≡ some b → b.data_addr ≡ d
data_addr-find d [] b e = absurd (cc)
data_addr-find d (c ∷ cs) b e = elim (Bool-cases (c.data_addr == d)) [
  | inl h ↦
      let hit : find d (c ∷ cs) ≡ some c = rw h refl in
      let same : c ≡ b = cc in rw (sym same) (ground arith)
  | inr h ↦ let miss : find d (c ∷ cs) ≡ find d cs = rw h refl in data_addr-find d cs b (cc)
]

finish_release-Finishes :
    (n : ℕ) {m : Run (Option (BinderAlloc × ℕ))}
    → Finishes m
    → Finishes (m >>= λ d. ok (finish_release n d))
unfolding finish_release
finish_release-Finishes n crashed = crashed
finish_release-Finishes n finished = finished

module _ (rb : RbLib) where
  -- Freeing a buffer takes it out of the allocated tree.
  pub binder_alloc_free_buf-erase :
      (alloc : BinderAlloc) (b : BinderBuffer)
      → find b.data_addr alloc.buffers ≡ some b
      → Always
          (λ a. in_order a.allocated_buffers ≡ erase b.data_addr (in_order alloc.allocated_buffers))
          (binder_alloc_free_buf rb alloc b.data_addr)
  unfolding give_back
  binder_alloc_free_buf-erase alloc b e =
      Always-map
        (binder_alloc_free_buf-Keeps (λ a. a.allocated_buffers) allocated-free_page_range
          (λ a bs. refl) (λ a t. refl) rb alloc b.data_addr b e)
        (λ a k.
          let d = b.data_addr in
          let erased : a.allocated_buffers ≡ rb.rb_erase d alloc.allocated_buffers =
            k.same ∙ ap (rb.rb_erase d) (allocated-free_page_range _ _ _) in
          ap in_order erased ∙ rb.in_order-rb_erase d alloc.allocated_buffers)

  -- One round, on the first allocated buffer.
  round-Finishes :
      (fuel : ℕ) (alloc : BinderAlloc) (freed d : ℕ) (b : BinderBuffer) (xs : List ℕ)
      → ((a : BinderAlloc) (k : ℕ)
          → length (in_order a.allocated_buffers) < fuel
          → Finishes (free_allocated rb fuel a k))
      → find d alloc.buffers ≡ some b
      → in_order alloc.allocated_buffers ≡ d ∷ xs
      → length xs < fuel
      → Finishes (elim (is_some b.transaction) [
        | true ↦ bug
        | false ↦ elim (binder_alloc_free_buf rb alloc d) [
          | ok a ↦ free_allocated rb fuel a (freed + 1)
          | bug ↦ bug
        ]
      ])
  round-Finishes fuel alloc freed d b xs rest e first lt =
      let addr = data_addr-find d alloc.buffers b e in
      let found : find b.data_addr alloc.buffers ≡ some b =
        subst (λ x. find x alloc.buffers ≡ some b) (sym addr) e in
      let h : Always (λ a. length (in_order a.allocated_buffers) < fuel)
          (binder_alloc_free_buf rb alloc d) =
        subst
          (λ x.
            Always (λ a. length (in_order a.allocated_buffers) < fuel)
              (binder_alloc_free_buf rb alloc x))
          addr
          (Always-map (binder_alloc_free_buf-erase alloc b found) (λ a k.
            let left : in_order a.allocated_buffers ≡ xs = k ∙ rw (addr, first) (erase-head d xs) in
            rw left lt)) in
      elim (is_some b.transaction)
        as (λ t. Finishes (elim t [
          | true ↦ bug
          | false ↦ elim (binder_alloc_free_buf rb alloc d) [
            | ok a ↦ free_allocated rb fuel a (freed + 1)
            | bug ↦ bug
          ]
        ])) [
          | true ↦ crashed
          | false ↦
              Finishes-elim (λ a. free_allocated rb fuel a (freed + 1)) h
                (λ a l. rest a (freed + 1) l)
        ]

  -- With more fuel than buffers are allocated, the loop that frees them ends.
  free_allocated-Finishes :
      (fuel : ℕ) (alloc : BinderAlloc) (freed : ℕ)
      → length (in_order alloc.allocated_buffers) < fuel
      → Finishes (free_allocated rb fuel alloc freed)
  unfolding free_allocated
  free_allocated-Finishes zero alloc freed h = absurd (omega arith)
  free_allocated-Finishes (suc fuel) alloc freed h =
      elim (List-cases (in_order alloc.allocated_buffers)) [
        | inl e ↦ rw (e, free_allocated, rb_first) finished
        | inr (d, xs, e) ↦ elim (Option-cases (find d alloc.buffers)) [
          | inl n ↦ rw (e, n, free_allocated, rb_first) crashed
          | inr (b, g) ↦
              let lt : length xs < fuel =
                let l : length (d ∷ xs) < suc fuel = subst (λ l. length l < suc fuel) e h in
                omega (arith, l) in
              rw (e, g, free_allocated, rb_first)
                (round-Finishes fuel alloc freed d b xs (free_allocated-Finishes fuel) g e lt)
        ]
      ]

  -- With more fuel than buffers are allocated, the release of an allocator ends: it is not stuck in
  -- the loop that frees them, whatever they are.
  pub binder_alloc_deferred_release-Finishes :
      (fuel : ℕ) (alloc : BinderAlloc)
      → length (in_order alloc.allocated_buffers) < fuel
      → Finishes (binder_alloc_deferred_release rb fuel alloc)
  unfolding binder_alloc_deferred_release
  binder_alloc_deferred_release-Finishes fuel alloc h = Finishes-any (bug_on alloc.vma) (λ u e.
      finish_release-Finishes (alloc.buffer_size / page_size)
        (free_allocated-Finishes fuel alloc 0 h))
