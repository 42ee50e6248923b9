-- ===== src/Game.antt =====
-- The package api/internal/game: scoring, question selection, rooms and their registry.
pub mod Scoring
pub mod Selector
pub mod State
pub mod Board
pub mod Session
pub mod Play
pub mod Room
pub mod Registry
pub mod Players
pub mod Invariant
pub mod Effects
pub mod Protocol
