-- ===== src/Alloc/Claim.antt =====
-- `binder_alloc_prepare_to_free`: a buffer is claimed at most once.
use headless_testing.Base.{
  ℕ, ◌≡◌, refl, false, Option, none, some, List, [], ◌∷◌, ◌==◌, sub64, Bool-cases, inl, inr,
  if_both, subst, Option-cases,
}
use mathlib.Core.Path.{ap, fun_ext}
use headless_testing.Kernel.{
  ok, Ptr, ptr, null_ptr, err_ptr, Errno, Always, stops, gives, Always-eq, Always-ok,
}
use headless_testing.RbTree.{Tree, search_tree}
use headless_testing.Alloc.State.{
  BinderBuffer, BinderAlloc, find, update, free_at, by_address, claim_found,
  binder_alloc_prepare_to_free,
}

abbrev claimed : BinderBuffer → BinderBuffer
claimed b = record b { allow_user_free = false }

find-update-claimed :
    (d : ℕ) (b : BinderBuffer) (bs : List BinderBuffer)
    → find d bs ≡ some b
    → find d (update d claimed bs) ≡ some (claimed b)
find-update-claimed d b [] e = absurd (cc)
find-update-claimed d b (c ∷ cs) e = elim (Bool-cases (c.data_addr == d)) [
  | inl h ↦
      let hit : find d (c ∷ cs) ≡ some c = rw h refl in
      let same : c ≡ b = cc in rw (h, h, same) refl
  | inr h ↦
      let miss : find d (c ∷ cs) ≡ find d cs = rw h refl in
      let rest : find d cs ≡ some b = cc in rw (h, h) (find-update-claimed d b cs rest)
]

free_at-update :
    (d : ℕ) (bs : List BinderBuffer) (x : ℕ) → free_at (update d claimed bs) x ≡ free_at bs x
free_at-update d [] x = refl
free_at-update d (c ∷ cs) x = elim (Bool-cases (c.data_addr == d)) [
  | inl h ↦ rw h (elim (Bool-cases (c.data_addr == x)) [ inl k ↦ rw k refl | inr k ↦ rw k refl ])
  | inr h ↦ rw h (elim (Bool-cases (c.data_addr == x)) [
    | inl k ↦ rw k refl
    | inr k ↦ rw k (free_at-update d cs x)
  ])
]

by_address-update :
    (d k : ℕ) (bs : List BinderBuffer) (x : ℕ)
    → by_address (update d claimed bs) k x ≡ by_address bs k x
by_address-update d k bs x = rw (free_at-update d bs x) refl

-- What a first call leaves: a claimed buffer is refused to a second one.
data Once (user_ptr : ℕ) : BinderAlloc × Ptr → Type 0 where
  absent : {a : BinderAlloc} → Once user_ptr (a, null_ptr)
  refused : {a : BinderAlloc} {e : Errno} → Once user_ptr (a, err_ptr e)
  taken :
      {a : BinderAlloc} {d : ℕ}
      → binder_alloc_prepare_to_free a user_ptr ≡ ok (a, err_ptr Errno.eperm)
      → Once user_ptr (a, ptr d)

Once-ptr :
    {u d : ℕ} {a : BinderAlloc}
    → Once u (a, ptr d)
    → binder_alloc_prepare_to_free a u ≡ ok (a, err_ptr Errno.eperm)
Once-ptr (taken h) = h

-- The search does not see that a buffer was claimed.
search_tree-claimed :
    (d k : ℕ) (bs : List BinderBuffer) (t : Tree)
    → search_tree (by_address (update d claimed bs) k) t ≡ search_tree (by_address bs k) t
search_tree-claimed d k bs t = ap (λ f. search_tree f t) (fun_ext (by_address-update d k bs))

claim-again :
    (alloc : BinderAlloc) (u d : ℕ) (b : BinderBuffer)
    → search_tree
        (by_address alloc.buffers (sub64 u alloc.user_buffer_offset))
        alloc.allocated_buffers
      ≡ ok (some d)
    → find d alloc.buffers ≡ some b
    → let a = record alloc { buffers = update d claimed alloc.buffers } in
      binder_alloc_prepare_to_free a u ≡ ok (a, err_ptr Errno.eperm)
unfolding binder_alloc_prepare_to_free
claim-again alloc u d b s e =
    let k = sub64 u alloc.user_buffer_offset in
    let same = search_tree-claimed d k alloc.buffers alloc.allocated_buffers in
    let found = find-update-claimed d b alloc.buffers e in rw (same, s, claim_found, found) refl

claim_found-Once :
    (alloc : BinderAlloc) (u : ℕ) (found : Option ℕ)
    → search_tree
        (by_address alloc.buffers (sub64 u alloc.user_buffer_offset))
        alloc.allocated_buffers
      ≡ ok found
    → Always (Once u) (claim_found alloc found)
claim_found-Once alloc u none s = gives absent
claim_found-Once alloc u (some d) s = elim (Option-cases (find d alloc.buffers)) [
  | inl n ↦ rw (n, claim_found) stops
  | inr (b, e) ↦
      rw (e, claim_found)
        (gives (if_both (Once u) b.allow_user_free (taken (claim-again alloc u d b s e)) refused))
]

-- A buffer that user space may free is claimed once: the second call on its address is refused and
-- changes nothing.
pub binder_alloc_prepare_to_free_once :
    (alloc a' : BinderAlloc) (user_ptr d : ℕ)
    → binder_alloc_prepare_to_free alloc user_ptr ≡ ok (a', ptr d)
    → binder_alloc_prepare_to_free a' user_ptr ≡ ok (a', err_ptr Errno.eperm)
unfolding binder_alloc_prepare_to_free
binder_alloc_prepare_to_free_once alloc a' user_ptr d e =
    let all : Always (Once user_ptr) (binder_alloc_prepare_to_free alloc user_ptr) =
      Always-eq
        (search_tree (by_address alloc.buffers (sub64 user_ptr alloc.user_buffer_offset))
          alloc.allocated_buffers)
        (λ found s. claim_found-Once alloc user_ptr found s) in
    Once-ptr (Always-ok (subst (Always (Once user_ptr)) e all))
