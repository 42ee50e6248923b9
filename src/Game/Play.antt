-- ===== src/Game/Play.antt =====
-- Questions and answers of one player (api/internal/game/play.go).
pub mod Options
pub mod Resolve
pub mod Handlers
