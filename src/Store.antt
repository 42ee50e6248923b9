-- ===== src/Store.antt =====
-- The package api/internal/store: rooms, players, questions and answers in the database.
pub mod Types
pub mod Database
pub mod Rooms
pub mod Progress
pub mod Restored
pub mod Hosts
pub mod Refusals
pub mod Created
pub mod Questions
pub mod Loaded
pub mod Marks
pub mod Reloaded
pub mod Results
pub mod Ranked
pub mod Rows
pub mod Capacity
pub mod Seats
