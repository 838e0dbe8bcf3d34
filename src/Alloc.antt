-- ===== src/Alloc.antt =====
-- docker/android-4.4-p-binder/binder_alloc.c: the buffer allocator of one binder process.
pub mod Tests
pub mod State
pub mod Pages
pub mod NewBuf
pub mod FreeBuf
pub mod Mmap
pub mod Async
pub mod Claim
