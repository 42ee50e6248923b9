-- ===== src/Game/Invariant.antt =====
-- What holds of a room between two events.
pub mod Defs
pub mod Frames
pub mod Session
pub mod Progress
pub mod Resolve
pub mod Handlers
pub mod Restored
pub mod Connections
pub mod Events
