-- ===== src/Recovery/Tests.antt =====
-- Runs of the recovery machine of prototype_final/locus/recovery_state.py, with a toy `Codec`.
use locus_v.Prelude.{none, some, List, [], ◌∷◌, ◌≡◌, ◌≢◌, arith, refl, ap}
use locus_v.Prelude.Eq.{nat_eq, list_eq, pair_eq}
use locus_v.Prelude.Results.{ok, raise}
use locus_v.Contracts.Values.{
  Text, event_reused, IsIdentifier, IsPositive, max_epoch, identifier, check_binding,
}
use locus_v.ClientMachine.Store.{get, Machine, empty_machine, Command, begins, advances, run}
use locus_v.Recovery.State.{
  RecoveryPhase, bootstrap, descriptor_verification, place, RecoveryClientState, client_eq,
  RecoveryTransitionEvent, check_client, check_event,
}
use locus_v.Recovery.Transitions.{advance_recovery, recover}
use locus_v.Codec.Samples.{plain, plain-IsCodec}
use locus_v.Recovery.Fingerprint.{fingerprint}
use locus_v.Recovery.Rules.{IsGood, Before}
use locus_v.Recovery.Calls.{
  run_recovery, recovery_retried, recovery_reused, recovery_bound, recovery_forward,
}
use locus_v.Recovery.Progress.{verifies, recovery_progress}

abbrev operation : Text
operation = 79 ∷ []

abbrev handle : Text
handle = 72 ∷ []

abbrev backup : Text
backup = 66 ∷ []

abbrev completed : Text → RecoveryPhase → RecoveryTransitionEvent
completed id phase = record {
  event_id = id;
  completed_phase = phase;
  backup_id = none;
  epoch = none;
}

abbrev verified : RecoveryTransitionEvent
verified = record {
  event_id = 53 ∷ [];
  completed_phase = descriptor_verification;
  backup_id = some backup;
  epoch = some 1;
}

abbrev in_phase : RecoveryPhase → RecoveryClientState
in_phase phase = record {
  operation_id = operation;
  phase = phase;
  recovery_handle = handle;
  backup_id = none;
  epoch = none;
}

abbrev Call : Type 0
Call = Command RecoveryClientState RecoveryTransitionEvent Text

abbrev opening : List Call
opening = begins handle operation ∷ []

abbrev to_verification : List Call
to_verification =
    begins handle operation ∷ advances (in_phase bootstrap) (completed (49 ∷ []) bootstrap) ∷ []

abbrev opened_machine : Machine RecoveryClientState
opened_machine = record { states = (operation, in_phase bootstrap) ∷ []; events = [] }

abbrev first_event : RecoveryTransitionEvent
first_event = completed (49 ∷ []) bootstrap

abbrev verification_machine : Machine RecoveryClientState
verification_machine = record {
  states = (operation, in_phase descriptor_verification) ∷ (operation, in_phase bootstrap) ∷ [];
  events =
      ((operation, 49 ∷ []), (fingerprint plain first_event, in_phase descriptor_verification))
      ∷ [];
}

first_advance :
    advance_recovery (fingerprint plain) opened_machine (in_phase bootstrap) first_event
    ≡ ok (in_phase descriptor_verification, verification_machine)
unfolding advance_recovery recover check_client identifier check_binding
first_advance = refl

verification_stored :
    get (run_recovery (fingerprint plain) empty_machine to_verification).states operation
    ≡ some (in_phase descriptor_verification)
unfolding run recover check_client identifier check_binding
verification_stored = refl

event_fresh :
    get (run_recovery (fingerprint plain) empty_machine to_verification).events (operation, 53 ∷ [])
    ≡ none
unfolding run recover check_client identifier check_binding
event_fresh = refl

recovery_retried_example :
    advance_recovery
      (fingerprint plain)
      (run_recovery (fingerprint plain) verification_machine to_verification)
      (in_phase bootstrap)
      first_event
    ≡ ok (
      in_phase descriptor_verification,
      run_recovery (fingerprint plain) verification_machine to_verification,
    )
recovery_retried_example =
    recovery_retried (fingerprint plain) opened_machine verification_machine (in_phase bootstrap)
      (in_phase descriptor_verification) first_event to_verification first_advance

no_other : first_event ≢ completed (49 ∷ []) descriptor_verification
no_other h = let o : 0 ≡ 1 = ap (λ e. place e.completed_phase) h in absurd (omega (arith, o))

first_valid : check_event first_event ≡ ok tt
unfolding check_event identifier check_binding
first_valid = refl

other_valid : check_event (completed (49 ∷ []) descriptor_verification) ≡ ok tt
unfolding check_event identifier check_binding
other_valid = refl

recovery_reused_example :
    advance_recovery
      (fingerprint plain)
      (run_recovery (fingerprint plain) verification_machine to_verification)
      (in_phase descriptor_verification)
      (completed (49 ∷ []) descriptor_verification)
    ≡ raise event_reused
recovery_reused_example =
    recovery_reused plain plain-IsCodec opened_machine verification_machine (in_phase bootstrap)
      (in_phase descriptor_verification) (in_phase descriptor_verification) first_event
      (completed (49 ∷ []) descriptor_verification) to_verification first_valid other_valid
      first_advance refl refl no_other

recovery_bound_example :
    IsGood (in_phase descriptor_verification)
    × ((in_phase descriptor_verification).operation_id ≡ operation)
recovery_bound_example =
    recovery_bound (fingerprint plain) to_verification operation (in_phase descriptor_verification)
      verification_stored

recovery_forward_example :
    (t : RecoveryClientState) × (get
        (run_recovery
          (fingerprint plain)
          (run_recovery (fingerprint plain) empty_machine to_verification)
          to_verification).states
        operation
      ≡ some t)
    × Before (in_phase descriptor_verification) t
recovery_forward_example =
    recovery_forward (fingerprint plain) to_verification to_verification operation
      (in_phase descriptor_verification) verification_stored

backup-IsIdentifier : IsIdentifier backup
backup-IsIdentifier = record {
  nonempty = omega arith;
  short = omega arith;
  visible = ((omega arith, omega arith), tt);
}

one-IsPositive : IsPositive max_epoch 1
one-IsPositive = record { positive = omega arith; bounded = omega arith }

unfinished : descriptor_verification ≢ RecoveryPhase.complete
unfinished h = let o : 1 ≡ 11 = ap place h in absurd (omega (arith, o))

recovery_progress_example :
    (t : RecoveryClientState) × (n : Machine RecoveryClientState) × (advance_recovery
        (fingerprint plain)
        (run_recovery (fingerprint plain) empty_machine to_verification)
        (in_phase descriptor_verification)
        verified
      ≡ ok (t, n))
    × (place t.phase ≡ 2)
    × (get n.states operation ≡ some t)
recovery_progress_example =
    recovery_progress (fingerprint plain) to_verification (in_phase descriptor_verification)
      verified verification_stored event_fresh unfinished refl
      (verifies backup 1 refl refl refl backup-IsIdentifier one-IsPositive)
