-- ===== src/Game/Effects.antt =====
-- What one command of a player does to its progress.
pub mod Resolved
pub mod Answers
pub mod Standings
pub mod Restored
