-- ===== src/Objects.antt =====
-- binder.c: the checks on the objects that a transaction carries.
pub mod Tests
pub mod Bounds
pub mod Fixups
pub mod Files
use headless_testing.Base.{
  ℕ, zero, suc, ◌+◌, ◌-◌, ◌*◌, ◌/◌, ◌%◌, ◌^◌, Bool, true, false, not, ◌&&◌, ◌||◌, Option, none,
  some, List, [], ◌∷◌, ltb, leb, ◌==◌, if◌then◌else◌, sub64, add64,
}
use headless_testing.Kernel.{Errno}

-- The `type` of a `struct binder_object_header`.
pub data ObjectType : Type 0 where
  type_binder type_weak_binder type_handle type_weak_handle type_fd type_ptr type_fda : ObjectType
  type_other : ℕ → ObjectType

-- What stands at an offset of a buffer, read as each of the object types. `buffer`, `length`,
-- `parent` and `parent_offset` are those of a `struct binder_buffer_object`, or of a
-- `struct binder_fd_array_object` with its `num_fds`.
pub record BinderObject : Type 0 where
  pub hdr_type : ObjectType
  pub has_parent : Bool
  pub buffer : ℕ
  pub length : ℕ
  pub parent : ℕ
  pub parent_offset : ℕ
  pub num_fds : ℕ

-- The part of `struct binder_buffer` that the checks read: the size and the memory.
pub record ObjectBuffer : Type 0 where
  pub data_size : ℕ
  pub object_at : ℕ → BinderObject

abbrev pub sizeof_header : ℕ
sizeof_header = 4

-- The size of each object on a 64-bit kernel; none for an unknown type.
unfoldable pub object_size : ObjectType → Option ℕ
object_size type_binder = some 24
object_size type_weak_binder = some 24
object_size type_handle = some 24
object_size type_weak_handle = some 24
object_size type_fd = some 24
object_size type_ptr = some 40
object_size type_fda = some 32
object_size (type_other t) = none

-- Does the whole object lie in the buffer?
abbrev pub size_if_whole : ObjectBuffer → ℕ → ℕ → ℕ
size_if_whole b offset size =
    if leb offset (sub64 b.data_size size) && leb size b.data_size then size else 0

unfoldable pub binder_validate_object : ObjectBuffer → ℕ → ℕ
binder_validate_object b offset =
    if ltb b.data_size sizeof_header
      || ltb (sub64 b.data_size sizeof_header) offset
      || not (offset % 4 == 0)
    then 0
    else elim (object_size (b.object_at offset).hdr_type) [
      | none ↦ 0
      | some size ↦ size_if_whole b offset size
    ]

abbrev pub is_ptr : ObjectType → Bool
is_ptr type_ptr = true
is_ptr type_binder = false
is_ptr type_weak_binder = false
is_ptr type_handle = false
is_ptr type_weak_handle = false
is_ptr type_fd = false
is_ptr type_fda = false
is_ptr (type_other t) = false

-- The offset of the buffer object with the given index; `start` is the offset array.
unfoldable pub binder_validate_ptr : ObjectBuffer → ℕ → (ℕ → ℕ) → ℕ → Option ℕ
binder_validate_ptr b index start num_valid =
    if leb num_valid index
    then none
    else if is_ptr (b.object_at (start index)).hdr_type
    then some (start index)
    else none

-- The loop of `binder_validate_fixup`, from the object at offset `last`; none is lack of fuel.
unfoldable pub fixup_walk : ObjectBuffer → (ℕ → ℕ) → ℕ → ℕ → ℕ → ℕ → ℕ → Option Bool
fixup_walk b start target fixup_offset zero last min_offset = none
fixup_walk b start target fixup_offset (suc fuel) last min_offset =
    let o = b.object_at last in
    let rest =
      fixup_walk b start target fixup_offset fuel (start o.parent) (add64 o.parent_offset 8) in
    if last == target
    then some (leb min_offset fixup_offset)
    else if not o.has_parent
    then some false
    else rest

-- `binder_validate_fixup`; without a last object there is nothing to fix up in.
unfoldable pub binder_validate_fixup :
    ObjectBuffer → (ℕ → ℕ) → ℕ → ℕ → ℕ → Option ℕ → ℕ → Option Bool
unfolding fixup_walk
binder_validate_fixup b start target fixup_offset fuel none min_offset = some false
binder_validate_fixup b start target fixup_offset fuel (some last) min_offset =
    fixup_walk b start target fixup_offset fuel last min_offset

-- A write that `binder_fixup_parent` makes: the address, and the pointer written there.
pub record Fixup : Type 0 where
  pub address : ℕ
  pub pointer : ℕ

-- How `binder_fixup_parent` ends: nothing to do, an error, a write, or lack of fuel.
pub data FixupResult : Type 0 where
  no_fixup : FixupResult
  refused : Errno → FixupResult
  written : Fixup → FixupResult
  no_fuel : FixupResult

-- The last check of `binder_fixup_parent`, and its write.
abbrev pub write_fixup : BinderObject → BinderObject → ℕ → FixupResult
write_fixup parent bp user_buffer_offset =
    if ltb parent.length 8 || ltb (sub64 parent.length 8) bp.parent_offset
    then refused Errno.einval
    else written (record {
      address = add64 (sub64 parent.buffer user_buffer_offset) bp.parent_offset;
      pointer = bp.buffer;
    })

-- `binder_fixup_parent` for the buffer object `bp`.
unfoldable pub binder_fixup_parent :
    ObjectBuffer → BinderObject → (ℕ → ℕ) → ℕ → ℕ → Option ℕ → ℕ → ℕ → FixupResult
unfolding binder_validate_ptr binder_validate_fixup
binder_fixup_parent b bp start num_valid fuel last_fixup_obj last_fixup_min_off user_buffer_offset =
    if not bp.has_parent then no_fixup else elim (binder_validate_ptr b bp.parent start num_valid) [
      | none ↦ refused Errno.einval
      | some p ↦
          elim (binder_validate_fixup b start p bp.parent_offset fuel last_fixup_obj
            last_fixup_min_off) [
              | none ↦ no_fuel
              | some false ↦ refused Errno.einval
              | some true ↦ write_fixup (b.object_at p) bp user_buffer_offset
            ]
    ]

-- The checks of `binder_translate_fd_array` before its loop: the address of the array, or -EINVAL.
unfoldable pub fd_array_address : BinderObject → BinderObject → ℕ → Option ℕ
fd_array_address fda parent user_buffer_offset =
    let fd_buf_size = (4 * fda.num_fds) % 2 ^ 64 in
    let fd_array = add64 (sub64 parent.buffer user_buffer_offset) fda.parent_offset in
    if leb ((2 ^ 64 - 1) / 4) fda.num_fds
    then none
    else if ltb parent.length fd_buf_size || ltb (sub64 parent.length fd_buf_size) fda.parent_offset
    then none
    else if not (fd_array % 4 == 0)
    then none
    else some fd_array
