-- ===== src/Session.antt =====
-- packages/session/src: sessions as append-only files of records, and the compaction of old messages
-- into summaries that stand in for them in a request.
pub mod Records
pub mod Tokens
pub mod Summary
pub mod Packing
pub mod Window
pub mod Lines
pub mod Files
pub mod FreshTail
pub mod Prefixes
pub mod Selecting
pub mod Watermark
pub mod Planning
pub mod Covering
pub mod Ending
pub mod Compaction
pub mod Counting
pub mod History
pub mod Reading
pub mod Bounds
mod Tests
