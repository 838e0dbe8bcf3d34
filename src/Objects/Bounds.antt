-- ===== src/Objects/Bounds.antt =====
-- What the checked objects lie in.
use headless_testing.Base.{
  ℕ, ◌+◌, ◌*◌, ◌%◌, ◌^◌, ◌≤◌, ◌<◌, ◌≡◌, ◌↔◌, refl, subst, true, Option, some, arith, sub64, add64,
  Option-cases, inl, inr,
}
use headless_testing.Objects.{
  ObjectType, type_binder, type_weak_binder, type_handle, type_weak_handle, type_fd, type_ptr,
  type_fda, type_other, is_ptr, ObjectBuffer, BinderObject, object_size, binder_validate_object,
  fd_array_address, binder_fixup_parent, binder_validate_ptr, written, Fixup,
}

-- The sizes of the objects that uapi/linux/android/binder.h declares, on a 64-bit kernel, by their
-- type. There is none for any other number in the header.
pub data HasSize : ObjectType → ℕ → Type 0 where
  binder_object : HasSize type_binder 24
  weak_binder_object : HasSize type_weak_binder 24
  handle_object : HasSize type_handle 24
  weak_handle_object : HasSize type_weak_handle 24
  fd_object : HasSize type_fd 24
  buffer_object : HasSize type_ptr 40
  fd_array_object : HasSize type_fda 32

sized : (t : ObjectType) (n s : ℕ) → some n ≡ some s → HasSize t n → HasSize t s
sized t n s e h = let same : n ≡ s = cc in subst (HasSize t) same h

size-known : (t : ObjectType) (s : ℕ) → object_size t ≡ some s → HasSize t s
unfolding object_size
size-known type_binder s e = sized type_binder 24 s e binder_object
size-known type_weak_binder s e = sized type_weak_binder 24 s e weak_binder_object
size-known type_handle s e = sized type_handle 24 s e handle_object
size-known type_weak_handle s e = sized type_weak_handle 24 s e weak_handle_object
size-known type_fd s e = sized type_fd 24 s e fd_object
size-known type_ptr s e = sized type_ptr 40 s e buffer_object
size-known type_fda s e = sized type_fda 32 s e fd_array_object
size-known (type_other k) s e = absurd (cc)

known-size : {t : ObjectType} {s : ℕ} → HasSize t s → object_size t ≡ some s
unfolding object_size
known-size binder_object = refl
known-size weak_binder_object = refl
known-size handle_object = refl
known-size weak_handle_object = refl
known-size fd_object = refl
known-size buffer_object = refl
known-size fd_array_object = refl

-- A valid object of `size` bytes at `offset`: aligned, of a known type, and whole.
pub record IsObject (b : ObjectBuffer) (offset size : ℕ) : Type 0 where
  pub aligned : offset % 4 ≡ 0
  pub known : HasSize (b.object_at offset).hdr_type size
  pub whole : offset + size ≤ b.data_size

object_size_bounds :
    (b : ObjectBuffer) (offset : ℕ) {s : ℕ}
    → object_size (b.object_at offset).hdr_type ≡ some s
    → (24 ≤ s) × (s ≤ 40)
unfolding object_size
object_size_bounds b offset h = ground arith

-- `binder_validate_object` returns a size exactly for an object that is aligned, of a known type
-- and whole in the buffer, and then the size of its type. Sizes and offsets are 64-bit.
pub binder_validate_object_iff :
    (b : ObjectBuffer) (offset size : ℕ)
    → b.data_size < 2 ^ 64
    → offset < 2 ^ 64
    → 0 < size
    → (binder_validate_object b offset ≡ size) ↔ IsObject b offset size
unfolding binder_validate_object
binder_validate_object_iff b offset size hd ho hs =
    let t = (b.object_at offset).hdr_type in
    elim (Option-cases (object_size t)) [
      | inl e ↦ (λ h. absurd (ground (arith, h, e, hs)), λ o. absurd (cc (known-size o.known, e)))
      | inr (s, e) ↦ (
        λ h.
            let bounds = object_size_bounds b offset {s = s} e in
            let same : s ≡ size = ground (arith, h, e, bounds, hs, hd, ho) in
            record {
              aligned = ground (arith, h, e, bounds);
              known = subst (HasSize t) same (size-known t s e);
              whole = ground (arith, h, e, bounds);
            },
        λ o.
            let known = known-size o.known in
            ground (arith, known, o.whole, o.aligned, e, object_size_bounds b offset {s = s} e),
      )
    ]

-- An accepted array of file descriptors lies whole in its parent, its address is aligned, and its
-- size does not wrap.
pub fd_array_address_bounds :
    (fda parent : BinderObject) (user_buffer_offset : ℕ) {a : ℕ}
    → parent.length < 2 ^ 64
    → fd_array_address fda parent user_buffer_offset ≡ some a
    → (fda.parent_offset + 4 * fda.num_fds ≤ parent.length)
      × (a ≡ add64 (sub64 parent.buffer user_buffer_offset) fda.parent_offset)
      × (a % 4 ≡ 0)
unfolding fd_array_address
fd_array_address_bounds fda parent user_buffer_offset hl h = ground arith

ptr-is_ptr : (t : ObjectType) → is_ptr t ≡ true → t ≡ type_ptr
ptr-is_ptr type_ptr e = refl
ptr-is_ptr type_binder e = absurd (cc)
ptr-is_ptr type_weak_binder e = absurd (cc)
ptr-is_ptr type_handle e = absurd (cc)
ptr-is_ptr type_weak_handle e = absurd (cc)
ptr-is_ptr type_fd e = absurd (cc)
ptr-is_ptr type_fda e = absurd (cc)
ptr-is_ptr (type_other k) e = absurd (cc)

-- A pointer that `binder_fixup_parent` writes lies whole in the parent buffer, which is a buffer
-- object, BINDER_TYPE_PTR, among the first `num_valid` of the offset array.
pub binder_fixup_parent_bounds :
    (b : ObjectBuffer) (bp : BinderObject) (start : ℕ → ℕ) (num_valid fuel : ℕ) (last : Option ℕ)
    (min_off user_buffer_offset : ℕ) {w : Fixup}
    → (b.object_at (start bp.parent)).length < 2 ^ 64
    → binder_fixup_parent b bp start num_valid fuel last min_off user_buffer_offset ≡ written w
    → (bp.parent < num_valid)
      × ((b.object_at (start bp.parent)).hdr_type ≡ type_ptr)
      × (bp.parent_offset + 8 ≤ (b.object_at (start bp.parent)).length)
      × (w.address
          ≡ add64
              (sub64 (b.object_at (start bp.parent)).buffer user_buffer_offset)
              bp.parent_offset)
      × (w.pointer ≡ bp.buffer)
unfolding binder_fixup_parent binder_validate_ptr
binder_fixup_parent_bounds b bp start num_valid fuel last min_off user_buffer_offset {w = w} hl h =
    let rest : (bp.parent < num_valid)
        × (is_ptr (b.object_at (start bp.parent)).hdr_type ≡ true)
        × (bp.parent_offset + 8 ≤ (b.object_at (start bp.parent)).length)
        × (w.address
            ≡ add64 (sub64 (b.object_at (start bp.parent)).buffer user_buffer_offset)
                bp.parent_offset)
        × (w.pointer ≡ bp.buffer) =
      ground (arith, h) in
    (rest.0, ptr-is_ptr (b.object_at (start bp.parent)).hdr_type rest.1, rest.2, rest.3, rest.4)
