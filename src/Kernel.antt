-- ===== src/Kernel.antt =====
-- What both drivers share of the kernel's conventions, passed on from the children.
mod Runs
mod Partial
mod Fuelled
mod Lacking
pub use Runs.*
pub use Partial.*
pub use Fuelled.*
pub use Lacking.*
