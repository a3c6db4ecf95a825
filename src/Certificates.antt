-- ===== src/Certificates.antt =====
-- The signed objects of the attempt ledger: prototype_final/locus/attempt_certificates.py.
pub mod Values
pub mod Hash
pub mod Config
pub mod Entry
pub mod Votes
pub mod Prepare
pub mod Authorization
pub mod Freshness
pub mod Accepted
pub mod RoundTrip
pub mod Intersection
pub mod Samples
mod Tests
