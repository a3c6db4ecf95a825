-- ===== src/Lifecycle.antt =====
-- The signed objects of re-enrollment: prototype/locus/epoch_lifecycle.py.
pub mod Values
pub mod Transition
pub mod Approval
pub mod Package
pub mod Ready
pub mod Activation
pub mod Accepted
pub mod RoundTrip
pub mod Reading
pub mod Samples
mod Tests
