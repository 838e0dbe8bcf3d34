-- ===== src/Driver/FreeBuffer/Tests.antt =====
-- A buffer with two descriptors, of a transaction that failed after the first.
use headless_testing.Base.{
  ℕ, ◌*◌, ◌≡◌, refl, none, some, [], ◌∷◌, true, false, List, if◌then◌else◌, ◌==◌,
}
use headless_testing.Kernel.{Run, ok, bug, Always}
use headless_testing.RbTree.Plain.{plain}
use headless_testing.Alloc.State.{BinderBuffer, new_buffer}
use headless_testing.Objects.{type_fd, binder_validate_object, object_size}
use headless_testing.Objects.Files.{FdKernel, task_close_fd}
use headless_testing.Driver.Tests.{driver}
use headless_testing.Driver.FreeBuffer.Descriptors.{
  Closes, named_in, binder_transaction_buffer_release-Closes,
}
use headless_testing.Driver.FreeBuffer.{BufferMemory, WithFiles, binder_transaction_buffer_release}

abbrev pub kernel : FdKernel
kernel = record {
  has_files = true;
  lock_task_sighand = true;
  target_allows_fd = true;
  fget = λ fd. true;
  may_transfer = λ fd. true;
  alloc_fd = λ fds. some 9;
}

-- Descriptor 5 stands at offset 0, and descriptor 6 at offset 24.
abbrev pub memory : BufferMemory
memory = record {
  objects = record {
    data_size = 48;
    object_at = λ o. record {
      hdr_type = type_fd;
      has_parent = false;
      buffer = 0;
      length = 0;
      parent = 0;
      parent_offset = 0;
      num_fds = 0;
    };
  };
  value_at = λ o. if o == 0 then 5 else 6;
  offset_of = λ i. 24 * i;
  word_at = λ a. 0;
  user_buffer_offset = 0;
}

abbrev two_objects : BinderBuffer
two_objects = record (new_buffer 65536) { data_size = 48; offsets_size = 16; free = false }

binder_transaction_buffer_release-Closes_example :
    Always
      (λ r. Closes (5 ∷ 6 ∷ []) (named_in memory two_objects (some 1)) r.1)
      (binder_transaction_buffer_release plain kernel memory
        (driver, 5 ∷ 6 ∷ [])
        0
        two_objects
        (some 1))
binder_transaction_buffer_release-Closes_example =
    binder_transaction_buffer_release-Closes kernel refl plain memory driver (5 ∷ 6 ∷ []) 0
      two_objects (some 1)

abbrev left_open : Run WithFiles → List ℕ
left_open bug = []
left_open (ok (b, fds)) = fds

-- Only the first was installed, and only it is closed; without a failure both stay.
closes_first :
    left_open (
      binder_transaction_buffer_release plain kernel memory
        (driver, 5 ∷ 6 ∷ [])
        0
        two_objects
        (some 1))
    ≡ 6 ∷ []
unfolding binder_transaction_buffer_release binder_validate_object task_close_fd object_size
closes_first = refl

keeps_both :
    left_open (
      binder_transaction_buffer_release plain kernel memory (driver, 5 ∷ 6 ∷ []) 0 two_objects none)
    ≡ 5 ∷ 6 ∷ []
unfolding binder_transaction_buffer_release binder_validate_object object_size
keeps_both = refl
