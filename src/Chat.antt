-- ===== src/Chat.antt =====
-- The chat context (apps/aria/src/aria/contexts/chat): rooms, the slot that lets one response at a
-- time be made in a room, what is said next in it, the worker that answers, and the timeline. The
-- idle worker (apps/aria/src/aria/workers/idle.py) goes round the rooms.
pub mod Room
pub mod Coordinator
pub mod Message
pub mod Transcript
pub mod Newest
pub mod Cursor
pub mod Paging
pub mod Topic
pub mod Candidates
pub mod Ask
pub mod Progress
pub mod Generation
pub mod Idle
pub mod Worker
pub mod Orchestration
mod Tests
