-- ===== src/Service.antt =====
-- internal/service and internal/transcript: the pipeline of one session, and what the HTTP layer calls.
pub mod Transcript
pub mod Process
pub mod Queries
pub mod Sharing
pub mod Graph
