-- ===== src/Tests.antt =====
-- Sample tables, and the theorems at concrete inputs.
mod Samples
mod Purchases
mod Attendance
mod Histories
mod Tickets
mod Payments
mod Logins
mod Loaders
mod Sessions
mod Accounts
mod Movies
mod Filmstaden
mod Server
mod Settings
