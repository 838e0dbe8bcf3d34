-- ===== src/Objects/Tests.antt =====
-- A transaction with a buffer object, one in it, and an array of descriptors.
use headless_testing.Base.{
  ℕ, ◌+◌, ◌*◌, ◌≤◌, ◌<◌, ◌%◌, ◌≡◌, ◌↔◌, refl, true, false, none, some, [], ◌∷◌, arith, length,
  if◌then◌else◌, ◌==◌, ltb, add64, sub64,
}
use headless_testing.Objects.{
  type_ptr, type_fda, BinderObject, ObjectBuffer, binder_validate_object, binder_fixup_parent,
  fd_array_address, fixup_walk,
}
use headless_testing.Objects.Bounds.{
  IsObject, binder_validate_object_iff, fd_array_address_bounds, binder_fixup_parent_bounds,
}
use headless_testing.Objects.Fixups.{Decides, fixup_walk-Decides}
use headless_testing.Objects.Files.{FdKernel, translate_fds}
use headless_testing.Objects.Files.Atomic.{Translates, translate_fds-Translates}

-- The outer buffer object, at offset 0.
abbrev outer : BinderObject
outer = record {
  hdr_type = type_ptr;
  has_parent = false;
  buffer = 8192;
  length = 64;
  parent = 0;
  parent_offset = 0;
  num_fds = 0;
}

-- The inner one, at offset 40, whose pointer stands at 16 in the outer one.
abbrev inner : BinderObject
inner = record outer { has_parent = true; buffer = 8256; parent = 0; parent_offset = 16 }

-- An array of three descriptors at 32 in the outer one.
abbrev three_fds : BinderObject
three_fds = record outer {
  hdr_type = type_fda;
  has_parent = true;
  parent = 0;
  parent_offset = 32;
  num_fds = 3;
}

abbrev two_objects : ObjectBuffer
two_objects = record { data_size = 128; object_at = λ a. if a == 0 then outer else inner }

abbrev starts : ℕ → ℕ
starts i = i * 40

binder_validate_object_iff_example :
    (binder_validate_object two_objects 40 ≡ 40) ↔ IsObject two_objects 40 40
binder_validate_object_iff_example =
    binder_validate_object_iff two_objects 40 40 (omega arith) (omega arith) (omega arith)

fd_array_address_bounds_example :
    (three_fds.parent_offset + 4 * three_fds.num_fds ≤ outer.length)
    × (8224 ≡ add64 (sub64 outer.buffer 0) three_fds.parent_offset)
    × (8224 % 4 ≡ 0)
unfolding fd_array_address
fd_array_address_bounds_example =
    fd_array_address_bounds three_fds outer 0 {a = 8224} (omega arith) refl

binder_fixup_parent_bounds_example :
    (inner.parent < 1)
    × (outer.hdr_type ≡ type_ptr)
    × (inner.parent_offset + 8 ≤ outer.length)
    × (8208 ≡ add64 (sub64 outer.buffer 0) inner.parent_offset)
    × (8256 ≡ inner.buffer)
unfolding binder_fixup_parent
binder_fixup_parent_bounds_example =
    binder_fixup_parent_bounds two_objects inner starts 1 4 (some 0) 0 0
      {w = record { address = 8208; pointer = 8256 }} (omega arith) refl

fixup_walk-Decides_example :
    Decides two_objects starts 0 24 (starts 1) 0 (fixup_walk two_objects starts 0 24 2 (starts 1) 0)
fixup_walk-Decides_example =
    fixup_walk-Decides two_objects starts 0 24 2 1 0 (λ j le h. ground arith) (omega arith)

-- A kernel that reserves the number after those that are open, and fails at the third.
abbrev small_table : FdKernel
small_table = record {
  has_files = true;
  lock_task_sighand = true;
  target_allows_fd = true;
  fget = λ fd. true;
  may_transfer = λ fd. true;
  alloc_fd = λ open_fds. if ltb (length open_fds) 3 then some (length open_fds) else none;
}

translate_fds-Translates_example :
    Translates small_table
      (0 ∷ [])
      (5 ∷ 6 ∷ 7 ∷ [])
      (translate_fds small_table (0 ∷ []) [] (5 ∷ 6 ∷ 7 ∷ []))
translate_fds-Translates_example = translate_fds-Translates small_table (0 ∷ []) (5 ∷ 6 ∷ 7 ∷ [])
