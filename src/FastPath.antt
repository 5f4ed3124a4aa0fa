-- ===== src/FastPath.antt =====
-- The fast path.
pub mod Ring
pub mod Response
pub mod Queue
pub mod Dispatcher
pub mod Submit
pub mod OutputSlab
pub mod CountPoll
