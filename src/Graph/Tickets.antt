-- ===== src/Graph/Tickets.antt =====
-- internal/graph/ticket.resolvers.go and internal/graph/ticket.helpers.go: the tickets of a showing.
pub mod Urls
pub mod Seats
pub mod Processing
