-- ===== src/Waiting.antt =====
-- The waiting room.
pub mod Filter
pub mod State
pub mod Connect
pub mod Disconnect
pub mod Receive
pub mod Session
pub mod Leaving
pub mod Closing
pub mod Matching
pub mod Invariant
pub mod Preserved
pub mod Requeue
pub mod Accepting
pub mod Blocking
pub mod Tasks
pub mod Turns
pub mod Route
pub mod RouteLaws
pub mod Steps
pub mod LeavingSteps
pub mod Interleaved
pub mod Reaching
pub mod Answering
pub mod Departing
pub mod Departed
pub mod Alone
pub mod Races
mod Tests
