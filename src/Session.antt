-- ===== src/Session.antt =====
-- internal/session: the sessions of users, in redis.
pub mod Client
pub mod Lifetime
