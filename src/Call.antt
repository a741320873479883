-- ===== src/Call.antt =====
-- Calls: the queue, the rooms and the history (server/app/domains/call).
pub mod Rooms
pub mod Queue
pub mod History
pub mod QueueLaws
pub mod HistoryLaws
mod Tests
