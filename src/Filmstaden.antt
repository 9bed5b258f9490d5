-- ===== src/Filmstaden.antt =====
-- filmstaden: the client of the cinema's API. What redis, the network and the decoding of JSON do are
-- parameters.
pub mod Client
pub mod Recent
pub mod Movies
pub mod Merging
pub mod Shows
