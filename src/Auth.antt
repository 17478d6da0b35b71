-- ===== src/Auth.antt =====
-- src/auth: passwords, session tokens, and the extractor that authenticates a request.
pub mod Password
pub mod Session
pub mod Middleware
