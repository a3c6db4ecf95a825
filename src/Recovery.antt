-- ===== src/Recovery.antt =====
-- The recovery client: prototype_final/locus/recovery_state.py and its types in contracts.py.
pub mod State
pub mod Transitions
pub mod Fingerprint
pub mod Rules
pub mod Laws
pub mod Calls
pub mod Progress
mod Tests
