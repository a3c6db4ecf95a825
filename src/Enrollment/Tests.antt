-- ===== src/Enrollment/Tests.antt =====
-- Runs of the enrollment machine of prototype_final/locus/enrollment_state.py, with a toy `Codec`.
use locus_v.Prelude.{none, some, List, [], ◌∷◌, ◌≡◌, ◌≢◌, arith, refl, ap}
use locus_v.Prelude.Eq.{nat_eq, list_eq, pair_eq}
use locus_v.Prelude.Results.{ok, raise}
use locus_v.Contracts.Values.{
  Text, event_reused, IsIdentifier, IsPositive, max_epoch, identifier, check_binding,
}
use locus_v.ClientMachine.Store.{get, Machine, empty_machine, Command, begins, advances, run}
use locus_v.Enrollment.State.{
  EnrollmentPhase, key, policy, suite_setup, key_wrap, backup_publication, place,
  EnrollmentClientState, client_eq, EnrollmentTransitionEvent, check_client, check_event,
}
use locus_v.Enrollment.Transitions.{advance_enrollment, enroll}
use locus_v.Codec.Samples.{plain, plain-IsCodec}
use locus_v.Enrollment.Fingerprint.{fingerprint}
use locus_v.Enrollment.Rules.{IsGood, Before}
use locus_v.Enrollment.Calls.{
  run_enrollment, enrollment_retried, enrollment_reused, enrollment_bound, enrollment_forward,
}
use locus_v.Enrollment.Progress.{publishes, enrollment_progress}

abbrev operation : Text
operation = 79 ∷ []

abbrev backup : Text
backup = 66 ∷ []

abbrev completed : Text → EnrollmentPhase → EnrollmentTransitionEvent
completed id phase = record {
  event_id = id;
  completed_phase = phase;
  backup_id = none;
  epoch = none;
}

abbrev published : EnrollmentTransitionEvent
published = record {
  event_id = 53 ∷ [];
  completed_phase = backup_publication;
  backup_id = some backup;
  epoch = some 1;
}

abbrev in_phase : EnrollmentPhase → EnrollmentClientState
in_phase phase = record { operation_id = operation; phase = phase; backup_id = none; epoch = none }

abbrev Call : Type 0
Call = Command EnrollmentClientState EnrollmentTransitionEvent (Unit {0})

abbrev opening : List Call
opening = begins tt operation ∷ []

abbrev to_policy : List Call
to_policy = begins tt operation ∷ advances (in_phase key) (completed (49 ∷ []) key) ∷ []

abbrev to_publication : List Call
to_publication =
    begins tt operation
    ∷ advances (in_phase key) (completed (49 ∷ []) key)
    ∷ advances (in_phase policy) (completed (50 ∷ []) policy)
    ∷ advances (in_phase suite_setup) (completed (51 ∷ []) suite_setup)
    ∷ advances (in_phase key_wrap) (completed (52 ∷ []) key_wrap)
    ∷ []

abbrev opened_machine : Machine EnrollmentClientState
opened_machine = record { states = (operation, in_phase key) ∷ []; events = [] }

abbrev first_event : EnrollmentTransitionEvent
first_event = completed (49 ∷ []) key

abbrev policy_machine : Machine EnrollmentClientState
policy_machine = record {
  states = (operation, in_phase policy) ∷ (operation, in_phase key) ∷ [];
  events = ((operation, 49 ∷ []), (fingerprint plain first_event, in_phase policy)) ∷ [];
}

first_advance :
    advance_enrollment (fingerprint plain) opened_machine (in_phase key) first_event
    ≡ ok (in_phase policy, policy_machine)
unfolding advance_enrollment enroll check_client identifier check_binding
first_advance = refl

policy_stored :
    get (run_enrollment (fingerprint plain) empty_machine to_policy).states operation
    ≡ some (in_phase policy)
unfolding run enroll check_client identifier check_binding
policy_stored = refl

publication_stored :
    get (run_enrollment (fingerprint plain) empty_machine to_publication).states operation
    ≡ some (in_phase backup_publication)
unfolding run enroll check_client identifier check_binding
publication_stored = refl

publication_fresh :
    get
      (run_enrollment (fingerprint plain) empty_machine to_publication).events
      (operation, 53 ∷ [])
    ≡ none
unfolding run enroll check_client identifier check_binding
publication_fresh = refl

enrollment_retried_example :
    advance_enrollment
      (fingerprint plain)
      (run_enrollment (fingerprint plain) policy_machine to_publication)
      (in_phase key)
      first_event
    ≡ ok (in_phase policy, run_enrollment (fingerprint plain) policy_machine to_publication)
enrollment_retried_example =
    enrollment_retried (fingerprint plain) opened_machine policy_machine (in_phase key)
      (in_phase policy) first_event to_publication first_advance

no_other : first_event ≢ completed (49 ∷ []) policy
no_other h = let o : 0 ≡ 1 = ap (λ e. place e.completed_phase) h in absurd (omega (arith, o))

first_valid : check_event first_event ≡ ok tt
unfolding check_event identifier check_binding
first_valid = refl

other_valid : check_event (completed (49 ∷ []) policy) ≡ ok tt
unfolding check_event identifier check_binding
other_valid = refl

enrollment_reused_example :
    advance_enrollment
      (fingerprint plain)
      (run_enrollment (fingerprint plain) policy_machine to_publication)
      (in_phase policy)
      (completed (49 ∷ []) policy)
    ≡ raise event_reused
enrollment_reused_example =
    enrollment_reused plain plain-IsCodec opened_machine policy_machine (in_phase key)
      (in_phase policy) (in_phase policy) first_event (completed (49 ∷ []) policy) to_publication
      first_valid other_valid first_advance refl refl no_other

enrollment_bound_example :
    IsGood (in_phase backup_publication) × ((in_phase backup_publication).operation_id ≡ operation)
enrollment_bound_example =
    enrollment_bound (fingerprint plain) to_publication operation (in_phase backup_publication)
      publication_stored

enrollment_forward_example :
    (t : EnrollmentClientState) × (get
        (run_enrollment
          (fingerprint plain)
          (run_enrollment (fingerprint plain) empty_machine to_policy)
          to_publication).states
        operation
      ≡ some t)
    × Before (in_phase policy) t
enrollment_forward_example =
    enrollment_forward (fingerprint plain) to_policy to_publication operation (in_phase policy)
      policy_stored

backup-IsIdentifier : IsIdentifier backup
backup-IsIdentifier = record {
  nonempty = omega arith;
  short = omega arith;
  visible = ((omega arith, omega arith), tt);
}

one-IsPositive : IsPositive max_epoch 1
one-IsPositive = record { positive = omega arith; bounded = omega arith }

unfinished : backup_publication ≢ EnrollmentPhase.complete
unfinished h = let o : 4 ≡ 9 = ap place h in absurd (omega (arith, o))

enrollment_progress_example :
    (t : EnrollmentClientState) × (n : Machine EnrollmentClientState) × (advance_enrollment
        (fingerprint plain)
        (run_enrollment (fingerprint plain) empty_machine to_publication)
        (in_phase backup_publication)
        published
      ≡ ok (t, n))
    × (place t.phase ≡ 5)
    × (get n.states operation ≡ some t)
enrollment_progress_example =
    enrollment_progress (fingerprint plain) to_publication (in_phase backup_publication) published
      publication_stored publication_fresh unfinished refl
      (publishes backup 1 refl refl refl backup-IsIdentifier one-IsPositive)
