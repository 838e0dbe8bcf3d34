-- ===== src/Driver/Read/Tests.antt =====
-- A thread with a node's work and the completion of a transaction reads both.
use headless_testing.Base.{
  ℕ, ◌≡◌, refl, true, Option, none, some, List, [], ◌∷◌, if◌then◌else◌, ◌==◌, arith,
}
use headless_testing.Kernel.{Run, ok, Within}
use headless_testing.RbTree.Plain.{plain}
use headless_testing.Driver.State.{
  Binder, BinderNode, BinderThread, node_work, transaction_complete,
}
use headless_testing.Driver.Work.{binder_available_for_proc_work}
use headless_testing.Driver.Counting.{br_increfs, br_acquire}
use headless_testing.Driver.Tests.{driver, a_thread, lone}
use headless_testing.Driver.Read.Returns.{
  ReadBuffer, Return, noop, spawn_looper_return, transaction_complete_return, node_return,
}
use headless_testing.Driver.Read.{ReadResult, returned, binder_thread_read}
use headless_testing.Driver.Read.Streams.{ReadFits, binder_thread_read-ReadFits}

abbrev owned : BinderNode
owned = record lone { proc = some 0 }

abbrev busy : BinderThread
busy = record a_thread { todo = node_work 7 ∷ transaction_complete 9 ∷ []; process_todo = true }

abbrev with_work : Binder
with_work = record driver {
  threads = λ t. if t == 5 then busy else a_thread;
  nodes = λ n. if n == 7 then some owned else none;
}

abbrev good_buffer : ReadBuffer
good_buffer = record {
  put_u32 = λ pos. true;
  put_u64 = λ pos. true;
  put_node = λ pos r. true;
  copy_transaction = λ pos. true;
  tgid = λ p. p;
}

abbrev read_of : ℕ → Run (Option ReadResult)
read_of size = binder_thread_read plain 1 good_buffer 0 5 size true 0 4 with_work []

binder_thread_read-ReadFits_example : Within (ReadFits 256 0) (read_of 256)
binder_thread_read-ReadFits_example =
    binder_thread_read-ReadFits plain 1 good_buffer 0 5 256 true 0 4 with_work [] (omega arith)
      (omega arith) (omega arith)

-- What a read has put.
abbrev put_by : Run (Option ReadResult) → List (ℕ × Return)
put_by (ok (some (returned r n))) = r.returns
put_by _ = []

reads_both :
    put_by (read_of 256)
    ≡ (0, noop)
      ∷ (4, node_return br_increfs 4096 0)
      ∷ (24, node_return br_acquire 4096 0)
      ∷ (44, transaction_complete_return)
      ∷ (0, spawn_looper_return)
      ∷ []
unfolding binder_thread_read binder_available_for_proc_work
reads_both = refl

-- In a buffer of two bytes the difference of the pointers wraps, and the same is put past its end.
past_the_end : put_by (read_of 2) ≡ put_by (read_of 256)
unfolding binder_thread_read binder_available_for_proc_work
past_the_end = refl
