-- ===== src/Game/Players.antt =====
-- Laws of the map of players (the fields `players` and `order` of api/internal/game/room.go).
pub mod Find
pub mod Keys
pub mod Lookup
