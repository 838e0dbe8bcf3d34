-- ===== src/Driver.antt =====
-- docker/android-4.4-p-binder/binder.c: processes, threads, nodes, references and transactions.
pub mod Tests
pub mod Lifetime
pub mod Heap
pub mod Write
pub mod Ioctl
pub mod Read
pub mod Send
pub mod FreeBuffer
pub mod Translate
pub mod Looper
pub mod Death
pub mod Counting
pub mod Create
pub mod Release
pub mod Transaction
pub mod State
pub mod Work
pub mod Node
pub mod Ref
