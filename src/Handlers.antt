-- ===== src/Handlers.antt =====
-- src/handlers: the HTTP API.
pub mod Auth
pub mod Audit
pub mod Logs
pub mod Listings
pub mod StaticFiles
pub mod Router
mod Tests
