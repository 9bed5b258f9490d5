-- ===== src/Graph.antt =====
-- internal/graph: the GraphQL resolvers.
pub mod Model
pub mod Showings
pub mod Tickets
pub mod Authorization
pub mod Payments
pub mod GiftCertificates
pub mod PublicUsers
pub mod PublicUserLoader
pub mod Scalars
pub mod Users
pub mod Movies
pub mod Locations
pub mod Filmstaden
pub mod Commandments
pub mod Histories
