-- ===== src/Enrollment/Calls.antt =====
-- What StableEnrollmentStateMachine of prototype_final/locus/enrollment_state.py promises its
-- callers.
use locus_v.Prelude.{some, List, ◌≡◌, ◌≢◌, arith}
use locus_v.Prelude.Eq.{nat_eq, list_eq, pair_eq}
use locus_v.Prelude.Results.{ok, raise}
use locus_v.Contracts.Values.{Text, Bytes, event_reused}
use locus_v.ClientMachine.Store.{get, Machine, empty_machine, Command, run}
use locus_v.ClientMachine.Runs.{advance_retried, advance_reused, run-Later}
use locus_v.ClientMachine.Laws.{Later-IsSound, Later-Before}
use locus_v.Enrollment.State.{
  EnrollmentClientState, client_eq, EnrollmentTransitionEvent, check_event,
}
use locus_v.Enrollment.Transitions.{enrollment_rules, advance_enrollment}
use locus_v.Codec.{Codec, IsCodec}
use locus_v.Enrollment.Fingerprint.{fingerprint, fingerprint_injective}
use locus_v.Enrollment.Rules.{IsGood, Before}
use locus_v.Enrollment.Laws.{first_state-IsGood, enroll-IsGood, Before-refl, Before-trans}

module _ (encode : EnrollmentTransitionEvent → Bytes) where
  abbrev pub run_enrollment :
      Machine EnrollmentClientState
      → List (Command EnrollmentClientState EnrollmentTransitionEvent (Unit {0}))
      → Machine EnrollmentClientState
  run_enrollment = run (enrollment_rules encode)

  -- An `advance` of the enrollment machine that returned a state returns the same state again, and
  -- changes nothing, whenever the caller repeats it with the same state and event, whatever calls
  -- came in between.
  pub enrollment_retried :
      (m n : Machine EnrollmentClientState) (s t : EnrollmentClientState)
      (event : EnrollmentTransitionEvent)
      (cs : List (Command EnrollmentClientState EnrollmentTransitionEvent (Unit {0})))
      → advance_enrollment encode m s event ≡ ok (t, n)
      → advance_enrollment encode (run_enrollment n cs) s event ≡ ok (t, run_enrollment n cs)
  unfolding advance_enrollment
  enrollment_retried m n s t event cs h =
      advance_retried (enrollment_rules encode) m n (run_enrollment n cs) s t event h
        (run-Later (enrollment_rules encode) n cs)

  -- After any calls of the enrollment machine, the state of every operation carries the
  -- operation's identifier, and its epoch binding is absent up to the publication of the backup
  -- and a valid identifier and epoch after it.
  pub enrollment_bound :
      (cs : List (Command EnrollmentClientState EnrollmentTransitionEvent (Unit {0})))
      (operation : Text) (s : EnrollmentClientState)
      → get (run_enrollment empty_machine cs).states operation ≡ some s
      → IsGood s × (s.operation_id ≡ operation)
  enrollment_bound cs operation s h =
      Later-IsSound (enrollment_rules encode) IsGood Before (λ _. first_state-IsGood) enroll-IsGood
        Before-refl Before-trans empty_machine (run_enrollment empty_machine cs)
        (run-Later (enrollment_rules encode) empty_machine cs) (λ o t e. absurd (cc)) operation s h

  -- Further calls of the enrollment machine keep every operation, never take its phase back, and
  -- never change an epoch binding that it has.
  pub enrollment_forward :
      (cs ds : List (Command EnrollmentClientState EnrollmentTransitionEvent (Unit {0})))
      (operation : Text) (s : EnrollmentClientState)
      → get (run_enrollment empty_machine cs).states operation ≡ some s
      → (t : EnrollmentClientState) × (get
            (run_enrollment (run_enrollment empty_machine cs) ds).states
            operation
          ≡ some t)
        × Before s t
  enrollment_forward cs ds operation s h =
      Later-Before (enrollment_rules encode) IsGood Before (λ _. first_state-IsGood) enroll-IsGood
        Before-refl Before-trans (run_enrollment empty_machine cs)
        (run_enrollment (run_enrollment empty_machine cs) ds) operation s
        (run-Later (enrollment_rules encode) (run_enrollment empty_machine cs) ds)
        (λ o t e. enrollment_bound cs o t e) h

-- The enrollment machine refuses an event identifier that an operation has used, for every other
-- event of that operation, whatever calls came in between. Both events are valid, and `strip`,
-- `normalize` and `json.dumps` do what the library documents: on visible ASCII text the first two
-- change nothing, and the last prints dictionaries with these keys differently when a value differs.
pub enrollment_reused :
    (codec : Codec)
    → IsCodec codec
    → (m n : Machine EnrollmentClientState) (s t u : EnrollmentClientState)
      (event other : EnrollmentTransitionEvent)
      (cs : List (Command EnrollmentClientState EnrollmentTransitionEvent (Unit {0})))
    → check_event event ≡ ok tt
    → check_event other ≡ ok tt
    → advance_enrollment (fingerprint codec) m s event ≡ ok (t, n)
    → u.operation_id ≡ s.operation_id
    → other.event_id ≡ event.event_id
    → event ≢ other
    → advance_enrollment (fingerprint codec) (run_enrollment (fingerprint codec) n cs) u other
      ≡ raise event_reused
unfolding advance_enrollment
enrollment_reused codec codes_well m n s t u event other cs valid other_valid h operation same
      differ =
    let rules = enrollment_rules (fingerprint codec) in
    advance_reused rules m n (run_enrollment (fingerprint codec) n cs) s t u event other h
      (run-Later rules n cs) (ground (arith, operation, same))
      (λ e. differ (fingerprint_injective codec codes_well event other valid other_valid e))
