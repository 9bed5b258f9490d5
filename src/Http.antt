-- ===== src/Http.antt =====
-- The HTTP server in front of the resolvers: internal/httputils, internal/middleware and
-- internal/cinema.
pub mod Writer
pub mod Errors
pub mod Replies
pub mod Middleware
pub mod Server
pub mod Guarding
