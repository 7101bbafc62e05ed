-- ===== src/System.antt =====
-- The kernel as a whole: the invariant on its state, the service calls and the steps.
pub mod Linked
pub mod Moves
pub mod Waits
pub mod Steady
pub mod Releases
pub mod Semaphores
pub mod Tasks
pub mod Transfers
pub mod DataMoves
pub mod Dataqueues
pub mod Pools
pub mod FlagLoop
pub mod Flags
pub mod PridataMoves
pub mod Pridataqs
pub mod Messages
pub mod Contexts
pub mod Buffers
pub mod Manage
pub mod Calls
pub mod Handlers
pub mod Interrupts
pub mod Steps
pub mod Progress
