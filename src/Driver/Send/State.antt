-- ===== src/Driver/Send/State.antt =====
-- What `binder_transaction` is given and carries along.
use headless_testing.Base.{ℕ, Bool, Option, none, List, ◌==◌, if◌then◌else◌}
use headless_testing.Alloc.Pages.{Memory}
use headless_testing.Objects.{
  ObjectType, BinderObject, Fixup, type_binder, type_weak_binder, type_handle, type_weak_handle,
}
use headless_testing.Objects.Files.{FdKernel}
use headless_testing.Driver.State.{Binder, Reply}
use headless_testing.Driver.FreeBuffer.{BufferMemory}
use headless_testing.Driver.Translate.{
  FlatType, flat_binder, flat_weak_binder, flat_handle, flat_weak_handle, FlatObject,
  TransferKernel,
}

-- `struct binder_transaction_data`, with the bits of `flags` that the driver reads.
pub record TransactionData : Type 0 where
  pub handle : ℕ
  pub code : ℕ
  pub one_way : Bool
  pub accept_fds : Bool
  pub data_size : ℕ
  pub offsets_size : ℕ

-- The memory of a buffer as the copies from user space leave it, with the `flags` and the `cookie`
-- of the flat objects.
pub record Content : Type 0 where
  pub memory : BufferMemory
  pub flags_at : ℕ → ℕ
  pub cookie_at : ℕ → ℕ

-- What is asked of the kernel: the security hook, memory for the transaction and for the work that
-- completes it, the length of the sender's security context or none for an error, memory for the
-- buffer, whether user space's data can be copied, what the copies leave in a buffer at an address,
-- and what each object needs by its index.
pub record SendKernel : Type 0 where
  pub may_transact : Bool
  pub kzalloc_t : Option ℕ
  pub kzalloc_tcomplete : Option ℕ
  pub secid_to_secctx : Option ℕ
  pub memory : Memory
  pub copy_data : Bool
  pub copy_offsets : Bool
  pub copy_sg : ℕ → Bool
  pub content : ℕ → Content
  pub files : FdKernel
  pub transfer : ℕ → TransferKernel
  pub sender_euid : ℕ

-- What the function holds while it runs; the error paths give it back.
pub record Held : Type 0 where
  pub in_reply_to : Option ℕ
  pub target_thread : Option ℕ
  pub target_proc : Option ℕ
  pub target_node : Option ℕ

abbrev pub nothing_held : Held
nothing_held = record {
  in_reply_to = none;
  target_thread = none;
  target_proc = none;
  target_node = none;
}

-- The driver, what is held, and the error if there is one.
abbrev pub Found : Type 0
Found = Binder × Held × Option Reply

-- The loop over the objects: the driver, the open descriptors of the target, the buffer, the least
-- offset that may follow, where the next scattered buffer goes, and the last fixup. The pointers
-- that fixups wrote are listed.
pub record Carried : Type 0 where
  pub driver : Binder
  pub fds : List ℕ
  pub content : Content
  pub off_min : ℕ
  pub sg_bufp : ℕ
  pub last_fixup_obj : Option ℕ
  pub last_fixup_min_off : ℕ
  pub pointers : List Fixup

-- The sending thread, what it holds, the target, and the end of the scattered buffers.
pub record Sending : Type 0 where
  pub thread : ℕ
  pub held : Held
  pub target : ℕ
  pub sg_buf_end : ℕ

abbrev pub object_type : FlatType → ObjectType
object_type flat_binder = type_binder
object_type flat_weak_binder = type_weak_binder
object_type flat_handle = type_handle
object_type flat_weak_handle = type_weak_handle

abbrev pub put_at {ℓ} : {A : Type ℓ} → ℕ → A → (ℕ → A) → ℕ → A
put_at i v f j = if j == i then v else f j

-- The object at an offset, written.
abbrev pub put_object : Content → ℕ → BinderObject → ℕ → Content
put_object c offset o value =
    let m = c.memory in
    record c {
      memory = record m {
        objects = record m.objects { object_at = put_at offset o m.objects.object_at };
        value_at = put_at offset value m.value_at;
      };
    }

abbrev pub flat_at : Content → FlatType → ℕ → FlatObject
flat_at c t offset = record {
  hdr_type = t;
  flags = c.flags_at offset;
  value = c.memory.value_at offset;
  cookie = c.cookie_at offset;
}

abbrev pub put_flat : Content → ℕ → FlatObject → Content
put_flat c offset fp =
    let o = c.memory.objects.object_at offset in
    record (put_object c offset (record o { hdr_type = object_type fp.hdr_type }) fp.value) {
      flags_at = put_at offset fp.flags c.flags_at;
      cookie_at = put_at offset fp.cookie c.cookie_at;
    }
