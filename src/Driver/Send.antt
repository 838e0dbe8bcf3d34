-- ===== src/Driver/Send.antt =====
-- `binder_transaction`: a call or a reply that a thread sends.
pub mod Tests
pub mod State
pub mod Target
pub mod Objects
pub mod Failure
pub mod Deliver
pub mod Request
pub mod Whole
pub mod Walks
pub mod Nesting
pub mod Frames
pub mod Refused
pub mod Delivered
pub mod Answers
