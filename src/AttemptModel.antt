-- ===== src/AttemptModel.antt =====
-- prototype_final/locus/attempt_model.py: the bounded model of the attempt-control state machine.
pub mod State
pub mod Party
pub mod Successors
pub mod Violation
pub mod Step
pub mod Valid
pub mod Refines
pub mod Sound
pub mod Reach
pub mod Bounds
pub mod Families
pub mod Run
pub mod Forking
pub mod Anchor
pub mod Forks
pub mod ForkFree
pub mod Quorum
pub mod Search
pub mod Trail
pub mod Explored
pub mod Exploration
pub mod Verdicts
pub mod Scenarios
pub mod Tests
