-- ===== src/Driver/Send/Tests.antt =====
-- Thread 5 of process 0, which serves transaction 2, calls the context manager in process 1.
use headless_testing.Base.{
  ℕ, ◌≡◌, refl, true, false, Option, none, some, List, [], ◌∷◌, if◌then◌else◌, ◌==◌, arith,
}
use headless_testing.Kernel.{Run, ok, bug, Ends}
use headless_testing.RbTree.{leaf, link}
use headless_testing.RbTree.Plain.{plain}
use headless_testing.Alloc.Tests.{mapped, all_well}
use headless_testing.Alloc.State.{
  binder_alloc_buffer_size, binder_buffer_next, binder_buffer_prev, binder_insert_free_buffer,
  binder_insert_allocated_buffer_locked,
}
use headless_testing.Alloc.Pages.{allocate_page_range, free_page_range}
use headless_testing.Alloc.FreeBuf.{binder_delete_free_buffer}
use headless_testing.Objects.{object_size}
use headless_testing.Objects.Files.{task_get_unused_fd_flags}
use headless_testing.Driver.State.{
  Binder, BinderNode, BinderThread, br_ok, br_failed_reply, transaction_work, return_error_work,
}
use headless_testing.Driver.Tests.{driver, a_proc, a_thread, lone}
use headless_testing.Driver.Transaction.Tests.{a_txn}
use headless_testing.Driver.FreeBuffer.Tests.{kernel, memory}
use headless_testing.Driver.Send.State.{SendKernel}
use headless_testing.Driver.Send.Request.{System, Request}
use headless_testing.Driver.Send.Whole.{binder_transaction}
use headless_testing.Driver.Send.Refused.{empty, above}
use headless_testing.Driver.Send.Answers.{AnsweredWith, binder_transaction-Answered}

abbrev manager : BinderNode
manager = record lone { proc = some 1; has_strong_ref = true }

abbrev server : BinderThread
server = record a_thread { transaction_stack = some 2 }

abbrev serving : Binder
serving = record driver {
  procs =
      λ p. record a_proc { refs_by_desc = leaf; waiting_threads = if p == 1 then 6 ∷ [] else [] };
  threads = λ t. if t == 5 then server else record a_thread { proc = 1 };
  nodes = λ n. if n == 7 then some manager else none;
  txns = λ t. if t == 2 then some (record a_txn { to_thread = some 5 }) else none;
  allocs = λ p. mapped;
  context_mgr = λ c. some 7;
}

-- The data holds two descriptors.
abbrev pub answers : SendKernel
answers = record {
  may_transact = true;
  kzalloc_t = some 9;
  kzalloc_tcomplete = some 10;
  secid_to_secctx = none;
  memory = all_well;
  copy_data = true;
  copy_offsets = true;
  copy_sg = λ a. true;
  content = λ a. record { memory = memory; flags_at = λ o. 0; cookie_at = λ o. 0 };
  files = kernel;
  transfer = λ i. record { kzalloc_node = none; kzalloc_ref = none; may_transfer = true };
  sender_euid = 0;
}

abbrev two_descriptors : Request
two_descriptors = record {
  thread = 5;
  tr = record {
    handle = 0;
    code = 1;
    one_way = false;
    accept_fds = false;
    data_size = 48;
    offsets_size = 16;
  };
  reply = false;
  extra_buffers_size = 0;
}

abbrev pub no_files : ℕ → List ℕ
no_files p = []

fresh_memory : (t : ℕ) → answers.kzalloc_t ≡ some t → serving.txns t ≡ none
fresh_memory t e = ground (arith, e)

binder_transaction-Answered_example :
    Ends
      (AnsweredWith answers two_descriptors)
      (binder_transaction plain answers 1 (serving, no_files) two_descriptors)
binder_transaction-Answered_example =
    binder_transaction-Answered plain answers 1 two_descriptors refl serving no_files
      (above {tx = record a_txn { to_thread = some 5 }} refl empty) fresh_memory

-- What is seen of a run.
abbrev seen {ℓ} : {A : Type ℓ} → (Binder → A) → A → Run (Option System) → A
seen f x bug = x
seen f x (ok none) = x
seen f x (ok (some (b, files))) = f b

abbrev run : SendKernel → Run (Option System)
run k = binder_transaction plain k 1 (serving, no_files) two_descriptors

-- The thread waits, and thread 6 has the transaction.
sends :
    (seen (λ b. (b.threads 5).transaction_stack) none (run answers) ≡ some 9)
    × (seen (λ b. (b.threads 6).todo) [] (run answers) ≡ transaction_work 9 ∷ [])
unfolding binder_transaction binder_alloc_buffer_size allocate_page_range binder_insert_free_buffer
    link binder_insert_allocated_buffer_locked object_size task_get_unused_fd_flags
sends = (refl, refl)

abbrev no_data : SendKernel
no_data = record answers { copy_data = false }

-- Without the data the thread has an error.
fails :
    (seen (λ b. (b.threads 5).return_error) br_ok (run no_data) ≡ br_failed_reply)
    × (seen (λ b. (b.threads 5).todo) [] (run no_data) ≡ return_error_work 5 ∷ [])
unfolding binder_transaction binder_alloc_buffer_size allocate_page_range binder_insert_free_buffer
    link binder_insert_allocated_buffer_locked binder_buffer_next free_page_range
    binder_delete_free_buffer binder_buffer_prev
fails = (refl, refl)
