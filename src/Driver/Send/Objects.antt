-- ===== src/Driver/Send/Objects.antt =====
-- The loop of `binder_transaction` over the objects in its buffer.
use headless_testing.Base.{
  ℕ, zero, suc, ◌*◌, ◌%◌, ◌^◌, Bool, true, false, not, ◌||◌, Option, none, some, List, [], ◌∷◌,
  ◌++◌, ◌==◌, ltb, if◌then◌else◌, add64, sub64, align8,
}
use headless_testing.Kernel.{Run, ok, bug, ◌>>=◌, ◌>>=?◌}
use headless_testing.RbTree.{RbLib}
use headless_testing.Objects.{
  BinderObject, ObjectType, type_binder, type_weak_binder, type_handle, type_weak_handle, type_fd,
  type_ptr, type_fda, type_other, binder_validate_object, binder_validate_ptr,
  binder_validate_fixup, binder_fixup_parent, fd_array_address, FixupResult, no_fixup, refused,
  written, no_fuel,
}
use headless_testing.Objects.Files.{
  FdKernel, FdResult, target_fd, fd_error, FdArrayResult, all_translated, array_error,
  binder_translate_fd, translate_fds,
}
use headless_testing.Driver.State.{Binder, with_txn, with_node}
use headless_testing.Driver.Translate.{
  FlatType, flat_binder, flat_weak_binder, flat_handle, flat_weak_handle, Translation,
  binder_translate_binder, binder_translate_handle,
}
use headless_testing.Driver.Send.State.{
  SendKernel, Held, Content, Carried, Sending, put_at, put_object, flat_at, put_flat,
}

-- After an object: what is carried, and whether the object was.
abbrev pub Step : Type 0
Step = Carried × Bool

-- May descriptors be passed? A reply may carry them if the call said so, a call if the node does.
unfoldable pub target_allows_fd : Binder → Held → Run Bool
target_allows_fd b held = elim held.in_reply_to [
  | some t ↦ with_txn b t λ tx. ok tx.accept_fds
  | none ↦ elim held.target_node [ none ↦ bug | some n ↦ with_node b n λ nd. ok nd.accept_fds ]
]

abbrev pub flat_carried : Carried → ℕ → Translation → Step
flat_carried c offset (b, fp, none) =
    (record c { driver = b; content = put_flat c.content offset fp }, true)
flat_carried c offset (b, fp, some e) = (record c { driver = b }, false)

abbrev pub fd_carried : Carried → ℕ → List ℕ × FdResult → Step
fd_carried c offset (fds, target_fd new) =
    let o = c.content.memory.objects.object_at offset in
    (record c { fds = fds; content = put_object c.content offset o new }, true)
fd_carried c offset (fds, fd_error e) = (record c { fds = fds }, false)

-- `count` words from an address on, read and written.
unfoldable pub read_words : (ℕ → ℕ) → ℕ → ℕ → List ℕ
read_words word_at addr zero = []
read_words word_at addr (suc n) = word_at addr ∷ read_words word_at (add64 addr 4) n

unfoldable pub write_words : (ℕ → ℕ) → ℕ → List ℕ → ℕ → ℕ
write_words word_at addr [] = word_at
write_words word_at addr (w ∷ ws) = write_words (put_at addr w word_at) (add64 addr 4) ws

abbrev pub put_words : Content → ℕ → List ℕ → Content
put_words c addr ws = record c {
  memory = record c.memory { word_at = write_words c.memory.word_at addr ws };
}

-- An array of descriptors at an address of parent `p`.
abbrev pub fda_carried : Carried → BinderObject → ℕ → ℕ → List ℕ × FdArrayResult → Step
fda_carried c fda p addr (fds, all_translated installed) = (
  record c {
    fds = fds;
    content = put_words c.content addr installed;
    last_fixup_obj = some p;
    last_fixup_min_off = add64 fda.parent_offset ((4 * fda.num_fds) % 2 ^ 64);
  },
  true,
)
fda_carried c fda p addr (fds, array_error e) = (record c { fds = fds }, false)

-- `binder_translate_fd_array`
unfoldable pub carry_array : FdKernel → Carried → BinderObject → ℕ → Step
unfolding fd_array_address translate_fds read_words
carry_array files c fda p =
    let m = c.content.memory in
    elim (fd_array_address fda (m.objects.object_at p) m.user_buffer_offset) [
      | none ↦ (c, false)
      | some addr ↦
          fda_carried c fda p addr
            (translate_fds files c.fds [] (read_words m.word_at addr fda.num_fds))
    ]

abbrev pub if_allowed : Option Bool → Step → Step → Option Step
if_allowed none halt go = none
if_allowed (some false) halt go = some halt
if_allowed (some true) halt go = some go

-- The descriptor array at `offset`, the object with the given index.
unfoldable pub carry_fda : FdKernel → Carried → ℕ → ℕ → Option Step
unfolding binder_validate_ptr binder_validate_fixup carry_array
carry_fda files c index offset =
    let m = c.content.memory in
    let fda = m.objects.object_at offset in
    elim (binder_validate_ptr m.objects fda.parent m.offset_of index) [
      | none ↦ some (c, false)
      | some p ↦
          if_allowed
            (binder_validate_fixup m.objects m.offset_of p fda.parent_offset (suc index)
              c.last_fixup_obj c.last_fixup_min_off)
            (c, false) (carry_array files c fda p)
    ]

-- The fixup of the buffer object at `offset` in its parent.
abbrev pub fixed_up : Carried → ℕ → FixupResult → Option Step
fixed_up c offset no_fixup =
    some (record c { last_fixup_obj = some offset; last_fixup_min_off = 0 }, true)
fixed_up c offset (refused e) = some (c, false)
fixed_up c offset (written w) = some (
  record c {
    last_fixup_obj = some offset;
    last_fixup_min_off = 0;
    pointers = c.pointers ++ w ∷ [];
  },
  true,
)
fixed_up c offset no_fuel = none

-- The buffer object is given its place among the scattered buffers.
abbrev pub place_ptr : Carried → ℕ → BinderObject → Carried
place_ptr c offset bp =
    let m = c.content.memory in
    let bp' = record bp { buffer = add64 c.sg_bufp m.user_buffer_offset } in
    record c {
      content = put_object c.content offset bp' (m.value_at offset);
      sg_bufp = add64 c.sg_bufp (align8 bp.length);
    }

unfoldable pub carry_ptr : SendKernel → Sending → Carried → ℕ → ℕ → Option Step
unfolding binder_fixup_parent
carry_ptr k s c index offset =
    let bp = c.content.memory.objects.object_at offset in
    let placed = place_ptr c offset bp in
    let m = placed.content.memory in
    if ltb (sub64 s.sg_buf_end c.sg_bufp) bp.length || not (k.copy_sg bp.buffer)
    then some (c, false)
    else fixed_up placed offset (
        binder_fixup_parent m.objects (m.objects.object_at offset) m.offset_of index (suc index)
          c.last_fixup_obj c.last_fixup_min_off m.user_buffer_offset)

abbrev pub give {ℓ} : {A : Type ℓ} → A → Run (Option A)
give a = ok (some a)

module _ (rb : RbLib) where
  unfoldable pub carry_binder : SendKernel → Sending → Carried → ℕ → ℕ → FlatType → Run Step
  unfolding binder_translate_binder
  carry_binder k s c index offset t =
      binder_translate_binder rb c.driver (k.transfer index) (flat_at c.content t offset) s.target
        s.thread
      >>= λ r. ok (flat_carried c offset r)

  unfoldable pub carry_handle : SendKernel → Sending → Carried → ℕ → ℕ → FlatType → Run Step
  unfolding binder_translate_handle
  carry_handle k s c index offset t =
      binder_translate_handle rb c.driver (k.transfer index) (flat_at c.content t offset) s.target
        s.thread
      >>= λ r. ok (flat_carried c offset r)

  -- An object by its type.
  unfoldable pub carry_typed :
      SendKernel → Sending → Carried → ℕ → ℕ → ObjectType → Run (Option Step)
  unfolding carry_binder carry_handle carry_fda carry_ptr target_allows_fd binder_translate_fd
  carry_typed k s c index offset type_binder = carry_binder k s c index offset flat_binder >>= give
  carry_typed k s c index offset type_weak_binder =
      carry_binder k s c index offset flat_weak_binder >>= give
  carry_typed k s c index offset type_handle = carry_handle k s c index offset flat_handle >>= give
  carry_typed k s c index offset type_weak_handle =
      carry_handle k s c index offset flat_weak_handle >>= give
  carry_typed k s c index offset type_fd = target_allows_fd c.driver s.held >>= λ allowed. give (
      fd_carried c offset (
        binder_translate_fd (record k.files { target_allows_fd = allowed }) c.fds
          (c.content.memory.value_at offset % 2 ^ 32)))
  carry_typed k s c index offset type_fda = target_allows_fd c.driver s.held >>= λ allowed.
      ok (carry_fda (record k.files { target_allows_fd = allowed }) c index offset)
  carry_typed k s c index offset type_ptr = ok (carry_ptr k s c index offset)
  carry_typed k s c index offset (type_other t) = give (c, false)

  -- The object with the given index: it must be valid, and not overlap the one before.
  unfoldable pub carry_at : SendKernel → Sending → Carried → ℕ → Run (Option Step)
  unfolding binder_validate_object carry_typed
  carry_at k s c index =
      let m = c.content.memory in
      let offset = m.offset_of index in
      let size = binder_validate_object m.objects offset in
      if size == 0 || ltb offset c.off_min
      then give (c, false)
      else carry_typed k s (record c { off_min = add64 offset size }) index offset
          (m.objects.object_at offset).hdr_type

  -- The loop over `left` objects from an index on, and the index where it failed.
  unfoldable pub carry_from :
      SendKernel → Sending → Carried → ℕ → ℕ → Run (Option (Carried × Option ℕ))
  unfolding carry_at
  carry_from k s c index zero = give (c, none)
  carry_from k s c index (suc left) = carry_at k s c index >>=? λ r.
      let rest = carry_from k s r.0 (suc index) left in if r.1 then rest else give (r.0, some index)
