-- ===== src/Database.antt =====
-- The database behind the server: its tables (internal/database/dao/models.go and
-- configs/database/migrations), and the connection over which statements are sent
-- (internal/database/connections.go, internal/database/dao/queries.go).
mod Schema
mod Connection
pub mod Atomicity
pub mod Execution
pub mod Config
pub use Schema.*
unfoldable pub use Connection.*
