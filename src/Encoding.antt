-- ===== src/Encoding.antt =====
-- The encodings of the Go library that the server puts its identifiers through.
pub mod Base64
