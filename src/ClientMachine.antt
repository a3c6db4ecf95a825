-- ===== src/ClientMachine.antt =====
-- The state machines of the clients: prototype_final/locus/enrollment_state.py and
-- recovery_state.py. Both keep their states and events in two dictionaries and differ in the rules
-- of a step.
pub mod Store
pub mod Runs
pub mod Laws
