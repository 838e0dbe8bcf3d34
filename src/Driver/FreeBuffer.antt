-- ===== src/Driver/FreeBuffer.antt =====
-- What a transaction's buffer holds is released, and user space frees buffers.
pub mod Tests
pub mod Descriptors
use headless_testing.Base.{
  ℕ, zero, suc, ◌+◌, ◌*◌, ◌/◌, ◌%◌, ◌^◌, ◌-◌, Bool, true, false, not, ◌&&◌, ◌||◌, Option, none,
  some, List, [], ◌∷◌, ◌==◌, ltb, leb, if◌then◌else◌, is_some, add64, sub64,
}
use headless_testing.Kernel.{Run, ok, bug, ◌>>=◌, ◌>>◌, bug_on, Ptr, ptr, null_ptr, err_ptr}
use headless_testing.RbTree.{RbLib}
use headless_testing.Alloc.State.{
  BinderAlloc, BinderBuffer, binder_alloc_prepare_to_free, update, find,
}
use headless_testing.Alloc.FreeBuf.{binder_alloc_free_buf}
use headless_testing.Objects.{
  ObjectBuffer, BinderObject, ObjectType, binder_validate_object, binder_validate_ptr, type_binder,
  type_weak_binder, type_handle, type_weak_handle, type_fd, type_ptr, type_fda, type_other,
}
use headless_testing.Objects.Files.{FdKernel, task_close_fd}
use headless_testing.Driver.State.{
  Binder, BinderTransaction, BufferPtr, set_txn, set_alloc, with_txn, with_buffer,
}
use headless_testing.Driver.Node.{binder_get_node, binder_dec_node, binder_dec_node_tmpref}
use headless_testing.Driver.Ref.{binder_update_ref_for_handle}
use headless_testing.Driver.Transaction.{set_buffer_txn, next_one_way}

-- The memory of a buffer: its objects, the `binder`, `handle` or `fd` of the object at an offset, the
-- offsets in their order, the `u32` at an address, and the offset to user space's addresses.
pub record BufferMemory : Type 0 where
  pub objects : ObjectBuffer
  pub value_at : ℕ → ℕ
  pub offset_of : ℕ → ℕ
  pub word_at : ℕ → ℕ
  pub user_buffer_offset : ℕ

-- The driver, with the open descriptors of the process whose buffer it is.
abbrev pub WithFiles : Type 0
WithFiles = Binder × List ℕ

-- The address of an array of descriptors in its parent, if it lies there.
abbrev pub released_array : BufferMemory → BinderObject → BinderObject → Option ℕ
released_array m fda parent =
    let fd_buf_size = (4 * fda.num_fds) % 2 ^ 64 in
    if leb ((2 ^ 64 - 1) / 4) fda.num_fds
    then none
    else if ltb parent.length fd_buf_size || ltb (sub64 parent.length fd_buf_size) fda.parent_offset
    then none
    else some (add64 (sub64 parent.buffer m.user_buffer_offset) fda.parent_offset)

-- Close the descriptors of an array, which starts at an address.
unfoldable pub close_array : FdKernel → (ℕ → ℕ) → ℕ → ℕ → List ℕ → List ℕ
unfolding task_close_fd
close_array k word_at addr zero open_fds = open_fds
close_array k word_at addr (suc n) open_fds =
    close_array k word_at (add64 addr 4) n (task_close_fd k (word_at addr) open_fds)

-- The array of descriptors at `offset`, the object with the given index.
unfoldable pub release_array : FdKernel → BufferMemory → ℕ → ℕ → List ℕ → List ℕ
unfolding binder_validate_ptr close_array
release_array k m index offset open_fds =
    let fda = m.objects.object_at offset in
    elim (binder_validate_ptr m.objects fda.parent m.offset_of index) [
      | none ↦ open_fds
      | some p ↦ elim (released_array m fda (m.objects.object_at p)) [
        | none ↦ open_fds
        | some addr ↦ close_array k m.word_at addr fda.num_fds open_fds
      ]
    ]

module _ (rb : RbLib) where
  -- An object of the process: the count that the transaction held is given back.
  unfoldable pub release_object : Binder → ℕ → ℕ → Bool → Run Binder
  unfolding binder_get_node binder_dec_node binder_dec_node_tmpref
  release_object b p binder strong = do
    (b', found) ← binder_get_node b p binder
    elim found [
      | none ↦ ok b'
      | some n ↦ binder_dec_node rb b' n strong false >>= λ b''. binder_dec_node_tmpref rb b'' n
    ]

  unfoldable pub release_handle : Binder → ℕ → ℕ → Bool → Run Binder
  unfolding binder_update_ref_for_handle
  release_handle b p desc strong =
      binder_update_ref_for_handle rb b p desc false strong >>= λ r. ok r.0

  -- An object by its type. Descriptors are closed after a failure only, those of arrays always.
  unfoldable pub release_typed :
      FdKernel → BufferMemory → ℕ → Bool → Binder → List ℕ → ℕ → ObjectType → Run WithFiles
  unfolding release_object release_handle release_array
  release_typed k m p failed b fds index type_binder =
      release_object b p (m.value_at (m.offset_of index)) true >>= λ b'. ok (b', fds)
  release_typed k m p failed b fds index type_weak_binder =
      release_object b p (m.value_at (m.offset_of index)) false >>= λ b'. ok (b', fds)
  release_typed k m p failed b fds index type_handle =
      release_handle b p (m.value_at (m.offset_of index) % 2 ^ 32) true >>= λ b'. ok (b', fds)
  release_typed k m p failed b fds index type_weak_handle =
      release_handle b p (m.value_at (m.offset_of index) % 2 ^ 32) false >>= λ b'. ok (b', fds)
  release_typed k m p failed b fds index type_fd =
      let fd = m.value_at (m.offset_of index) % 2 ^ 32 in
      ok (b, if failed then task_close_fd k fd fds else fds)
  release_typed k m p failed b fds index type_ptr = ok (b, fds)
  release_typed k m p failed b fds index type_fda =
      ok (b, release_array k m index (m.offset_of index) fds)
  release_typed k m p failed b fds index (type_other t) = ok (b, fds)

  -- One object of the buffer, by its index. One that is not valid is passed over.
  unfoldable pub release_at : FdKernel → BufferMemory → ℕ → Bool → WithFiles → ℕ → Run WithFiles
  unfolding binder_validate_object release_typed
  release_at k m p failed (b, fds) index =
      let offset = m.offset_of index in
      if binder_validate_object m.objects offset == 0
      then ok (b, fds)
      else release_typed k m p failed b fds index (m.objects.object_at offset).hdr_type

  -- The loop over `left` objects from an index on.
  unfoldable pub release_from :
      FdKernel → BufferMemory → ℕ → Bool → WithFiles → ℕ → ℕ → Run WithFiles
  unfolding release_at
  release_from k m p failed s index zero = ok s
  release_from k m p failed s index (suc left) =
      release_at k m p failed s index >>= λ s'. release_from k m p failed s' (suc index) left

  -- `binder_transaction_buffer_release`; `failed_at` is the index where a transaction failed.
  unfoldable pub binder_transaction_buffer_release :
      FdKernel → BufferMemory → WithFiles → ℕ → BinderBuffer → Option ℕ → Run WithFiles
  unfolding binder_dec_node release_from
  binder_transaction_buffer_release k m (b, fds) p bf failed_at = do
    b' ← elim bf.target_node [ none ↦ ok b | some n ↦ binder_dec_node rb b n true false ]
    elim failed_at [
      | none ↦ release_from k m p false (b', fds) 0 ((bf.offsets_size + 7) / 8)
      | some i ↦ release_from k m p true (b', fds) 0 i
    ]

  -- The buffer and its transaction forget each other.
  unfoldable pub detach_buffer : Binder → BufferPtr → BinderBuffer → Run Binder
  detach_buffer b bp bf = elim bf.transaction [
    | none ↦ ok b
    | some t ↦
        with_txn b t
          λ tx. ok (set_buffer_txn (set_txn b t (record tx { buffer = none })) (some bp) none)
  ]

  -- A one-way transaction to a node is finished.
  unfoldable pub finish_one_way : Binder → ℕ → BinderBuffer → Run Binder
  unfolding next_one_way
  finish_one_way b p bf = elim bf.target_node [
    | none ↦ ok b
    | some n ↦ if bf.async_transaction then next_one_way b p n else ok b
  ]

  -- BC_FREE_BUFFER for the buffer at `addr`, which the process has claimed.
  unfoldable pub free_claimed :
      FdKernel → BufferMemory → WithFiles → ℕ → ℕ → BinderBuffer → Run WithFiles
  unfolding detach_buffer finish_one_way binder_transaction_buffer_release binder_alloc_free_buf
  free_claimed k m (b, fds) p addr bf = do
    detached ← detach_buffer b (record { owner = p; addr = addr }) bf
    moved ← finish_one_way detached p bf
    (b', fds') ← binder_transaction_buffer_release k m (moved, fds) p bf none
    freed ← binder_alloc_free_buf rb (b'.allocs p) addr
    ok (set_alloc b' p freed, fds')

  -- BC_FREE_BUFFER for the user's pointer `data_ptr`. An error is only logged.
  unfoldable pub bc_free_buffer : FdKernel → BufferMemory → WithFiles → ℕ → ℕ → Run WithFiles
  unfolding binder_alloc_prepare_to_free free_claimed
  bc_free_buffer k m (b, fds) p data_ptr = do
    (a, claimed) ← binder_alloc_prepare_to_free (b.allocs p) data_ptr
    let b' = set_alloc b p a
    elim claimed [
      | null_ptr ↦ ok (b', fds)
      | err_ptr e ↦ ok (b', fds)
      | ptr addr ↦
          with_buffer b' (record { owner = p; addr = addr })
            λ bf. free_claimed k m (b', fds) p addr bf
    ]
