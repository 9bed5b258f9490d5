-- ===== src/Dao.antt =====
-- The statements of internal/database/dao, which sqlc generates from configs/database/queries, and
-- the constraints that configs/database/migrations put on the tables. A statement's function has the
-- statement's name; `:exec` returns nothing, `:execrows` the number of rows, `:one` a row or
-- `no_rows`, `:many` the rows.
pub mod Showings
pub mod CinemaScreens
pub mod Attendees
pub mod Tickets
pub mod Users
pub mod Accounts
pub mod Movies
pub mod Locations
pub mod Commandments
pub mod Consistency
