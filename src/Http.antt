-- ===== src/Http.antt =====
-- The package api/internal/http: the REST handlers.
pub mod Requests
pub mod Validation
pub mod Api
pub mod Handlers
pub mod Routes
pub mod Live
pub mod Joining
pub mod Access
pub mod Created
pub mod Login
pub mod Hosting
