-- ===== src/HttpIdempotency.antt =====
-- The replay of HTTP requests in prototype/locus/party_store.py.
pub mod Requests
pub mod Steps
pub mod Replay
mod Tests
