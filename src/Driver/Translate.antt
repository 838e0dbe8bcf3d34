-- ===== src/Driver/Translate.antt =====
-- Objects and handles that a transaction carries into another process.
pub mod Tests
pub mod Faithful
use headless_testing.Base.{
  ℕ, ◌%◌, ◌^◌, Bool, true, false, not, Option, none, some, List, [], ◌∷◌, ◌==◌, if◌then◌else◌,
}
use headless_testing.Kernel.{Run, ok, bug, ◌>>=◌, Errno}
use headless_testing.RbTree.{RbLib}
use headless_testing.Driver.State.{
  Binder, BinderNode, BinderThread, BinderTransaction, BinderRefData, WorkList, thread_todo,
  with_node,
}
use headless_testing.Driver.Node.{binder_get_node, binder_inc_node, binder_dec_node_tmpref}
use headless_testing.Driver.Ref.{
  IncResult, inc_error, inc_ref, binder_get_node_from_ref, binder_inc_ref_for_node,
}
use headless_testing.Driver.Create.{FlatBinder, binder_new_node}
use headless_testing.Driver.Transaction.{is_top}

-- The four types of a `struct flat_binder_object`.
pub data FlatType : Type 0 where
  flat_binder flat_weak_binder flat_handle flat_weak_handle : FlatType

-- `struct flat_binder_object`. `value` is the union of `binder` and, in its low half, `handle`.
pub record FlatObject : Type 0 where
  pub hdr_type : FlatType
  pub flags : ℕ
  pub value : ℕ
  pub cookie : ℕ

abbrev pub is_strong_type : FlatType → Bool
is_strong_type flat_binder = true
is_strong_type flat_weak_binder = false
is_strong_type flat_handle = true
is_strong_type flat_weak_handle = false

abbrev pub handle_type : Bool → FlatType
handle_type strong = if strong then flat_handle else flat_weak_handle

abbrev pub binder_type : Bool → FlatType
binder_type strong = if strong then flat_binder else flat_weak_binder

-- What is asked of the kernel meanwhile: memory for a node and for a reference, and
-- `security_binder_transfer_binder`.
pub record TransferKernel : Type 0 where
  pub kzalloc_node : Option ℕ
  pub kzalloc_ref : Option ℕ
  pub may_transfer : Bool

abbrev pub Translation : Type 0
Translation = Binder × FlatObject × Option Errno

-- The object becomes a handle of the target, or is left as it is.
abbrev pub to_handle : FlatObject → Bool → Binder × IncResult → Translation
to_handle fp strong (b, inc_error e) = (b, fp, some e)
to_handle fp strong (b, inc_ref rdata) =
    (b, record fp { hdr_type = handle_type strong; value = rdata.desc; cookie = 0 }, none)

module _ (rb : RbLib) where
  -- The end of both: the temporary reference on the node is dropped.
  unfoldable pub put_translated : ℕ → Translation → Run Translation
  unfolding binder_dec_node_tmpref
  put_translated n (b, fp, e) = binder_dec_node_tmpref rb b n >>= λ b'. ok (b', fp, e)

  -- The node that an object stands for, made if there is none.
  unfoldable pub node_of_object : Binder → ℕ → TransferKernel → FlatObject → Run (Binder × Option ℕ)
  unfolding binder_get_node binder_new_node
  node_of_object b p k fp = do
    (b', found) ← binder_get_node b p fp.value
    elim found [
      | some n ↦ ok (b', some n)
      | none ↦
          binder_new_node rb b' p k.kzalloc_node
            (record { binder = fp.value; cookie = fp.cookie; flags = fp.flags })
    ]

  -- The reference on node `n` in the target `p`.
  unfoldable pub refer_target :
      Binder → TransferKernel → FlatObject → ℕ → ℕ → Option WorkList → Run Translation
  unfolding binder_inc_ref_for_node
  refer_target b k fp p n target_list =
      binder_inc_ref_for_node rb b p n (is_strong_type fp.hdr_type) target_list k.kzalloc_ref
      >>= λ r. ok (to_handle fp (is_strong_type fp.hdr_type) r)

  -- `binder_translate_binder` for thread `th`, into the process `target`.
  unfoldable pub binder_translate_binder :
      Binder → TransferKernel → FlatObject → ℕ → ℕ → Run Translation
  unfolding node_of_object refer_target put_translated
  binder_translate_binder b k fp target th = do
    (b', found) ← node_of_object b (b.threads th).proc k fp
    elim found [
      | none ↦ ok (b', fp, some Errno.enomem)
      | some n ↦ with_node b' n λ nd.
          (if not (fp.cookie == nd.cookie)
            then ok (b', fp, some Errno.einval)
            else if not k.may_transfer
            then ok (b', fp, some Errno.eperm)
            else refer_target b' k fp target n (some (thread_todo th)))
          >>= put_translated n
    ]

  -- The handle comes home: it becomes an object again. The error of the count is not looked at.
  unfoldable pub to_object : Binder → FlatObject → ℕ → BinderNode → Run Translation
  unfolding binder_inc_node
  to_object b fp n nd =
      let strong = is_strong_type fp.hdr_type in
      let fp' = record fp { hdr_type = binder_type strong; value = nd.ptr; cookie = nd.cookie } in
      binder_inc_node b n strong false none >>= λ r. ok (r.0, fp', none)

  -- `binder_translate_handle` for thread `th`, into the process `target`.
  unfoldable pub binder_translate_handle :
      Binder → TransferKernel → FlatObject → ℕ → ℕ → Run Translation
  unfolding binder_get_node_from_ref to_object refer_target put_translated
  binder_translate_handle b k fp target th = do
    let strong = is_strong_type fp.hdr_type
    (b', found) ← binder_get_node_from_ref b (b.threads th).proc (fp.value % 2 ^ 32) strong
    elim found [
      | none ↦ ok (b', fp, some Errno.einval)
      | some (n, rdata) ↦ with_node b' n λ nd.
          (if not k.may_transfer
            then ok (b', fp, some Errno.eperm)
            else if is_top nd.proc target
            then to_object b' fp n nd
            else refer_target b' k fp target n none)
          >>= put_translated n
    ]
