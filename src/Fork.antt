-- ===== src/Fork.antt =====
-- internal/fork/fork.go: the windows of a transcript, the turn numbers, and the candidates.
pub mod Message
pub mod Windows
pub mod Candidates
pub mod Analyze
