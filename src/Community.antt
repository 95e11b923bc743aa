-- ===== src/Community.antt =====
-- The community context (apps/aria/src/aria/contexts/community): stories that are read out on air,
-- likes with their cached count, and the ranking of a persona's supporters.
pub mod Story
pub mod Reading
pub mod Like
pub mod Counting
pub mod Ranking
pub mod Supporters
mod Tests
