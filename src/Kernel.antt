-- ===== src/Kernel.antt =====
-- The state of the kernel, its queues and task states, and what service calls come to, for the
-- modules of the components.
pub mod State
pub mod Queues
pub mod Status
pub mod Calls
pub use State.*
unfoldable pub use Queues.*
unfoldable pub use Status.*
unfoldable pub use Calls.*
