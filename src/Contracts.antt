-- ===== src/Contracts.antt =====
-- prototype_final/locus/contracts.py: the validations that its dataclasses run when they are built.
pub mod Values
pub mod Accepts
pub mod Directory
pub mod Suites
pub mod Documents
pub mod Members
mod Tests
