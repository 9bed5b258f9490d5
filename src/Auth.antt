-- ===== src/Auth.antt =====
-- internal/auth0: logging in.
pub mod State
pub mod Flow
pub mod Handlers
