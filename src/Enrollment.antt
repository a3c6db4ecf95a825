-- ===== src/Enrollment.antt =====
-- The enrollment client: prototype_final/locus/enrollment_state.py and its types in contracts.py.
pub mod State
pub mod Transitions
pub mod Fingerprint
pub mod Rules
pub mod Laws
pub mod Calls
pub mod Progress
mod Tests
