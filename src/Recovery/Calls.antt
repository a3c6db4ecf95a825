-- ===== src/Recovery/Calls.antt =====
-- What StableRecoveryStateMachine of prototype_final/locus/recovery_state.py promises its callers.
use locus_v.Prelude.{some, List, ◌≡◌, ◌≢◌, arith}
use locus_v.Prelude.Eq.{nat_eq, list_eq, pair_eq}
use locus_v.Prelude.Results.{ok, raise}
use locus_v.Contracts.Values.{Text, Bytes, event_reused}
use locus_v.ClientMachine.Store.{get, Machine, empty_machine, Command, run}
use locus_v.ClientMachine.Runs.{advance_retried, advance_reused, run-Later}
use locus_v.ClientMachine.Laws.{Later-IsSound, Later-Before}
use locus_v.Recovery.State.{RecoveryClientState, client_eq, RecoveryTransitionEvent, check_event}
use locus_v.Recovery.Transitions.{recovery_rules, advance_recovery}
use locus_v.Codec.{Codec, IsCodec}
use locus_v.Recovery.Fingerprint.{fingerprint, fingerprint_injective}
use locus_v.Recovery.Rules.{IsGood, Before}
use locus_v.Recovery.Laws.{first_state-IsGood, recover-IsGood, Before-refl, Before-trans}

module _ (encode : RecoveryTransitionEvent → Bytes) where
  abbrev pub run_recovery :
      Machine RecoveryClientState
      → List (Command RecoveryClientState RecoveryTransitionEvent Text)
      → Machine RecoveryClientState
  run_recovery = run (recovery_rules encode)

  -- An `advance` of the recovery machine that returned a state returns the same state again, and
  -- changes nothing, whenever the caller repeats it with the same state and event, whatever calls
  -- came in between.
  pub recovery_retried :
      (m n : Machine RecoveryClientState) (s t : RecoveryClientState)
      (event : RecoveryTransitionEvent)
      (cs : List (Command RecoveryClientState RecoveryTransitionEvent Text))
      → advance_recovery encode m s event ≡ ok (t, n)
      → advance_recovery encode (run_recovery n cs) s event ≡ ok (t, run_recovery n cs)
  unfolding advance_recovery
  recovery_retried m n s t event cs h =
      advance_retried (recovery_rules encode) m n (run_recovery n cs) s t event h
        (run-Later (recovery_rules encode) n cs)

  -- After any calls of the recovery machine, the state of every operation carries the operation's
  -- identifier, and its epoch binding is absent up to the verification of the descriptor and a
  -- valid identifier and epoch after it.
  pub recovery_bound :
      (cs : List (Command RecoveryClientState RecoveryTransitionEvent Text)) (operation : Text)
      (s : RecoveryClientState)
      → get (run_recovery empty_machine cs).states operation ≡ some s
      → IsGood s × (s.operation_id ≡ operation)
  recovery_bound cs operation s h =
      Later-IsSound (recovery_rules encode) IsGood Before first_state-IsGood recover-IsGood
        Before-refl Before-trans empty_machine (run_recovery empty_machine cs)
        (run-Later (recovery_rules encode) empty_machine cs) (λ o t e. absurd (cc)) operation s h

  -- Further calls of the recovery machine keep every operation, never take its phase back, and
  -- never change its handle or an epoch binding that it has.
  pub recovery_forward :
      (cs ds : List (Command RecoveryClientState RecoveryTransitionEvent Text)) (operation : Text)
      (s : RecoveryClientState)
      → get (run_recovery empty_machine cs).states operation ≡ some s
      → (t : RecoveryClientState) × (get
            (run_recovery (run_recovery empty_machine cs) ds).states
            operation
          ≡ some t)
        × Before s t
  recovery_forward cs ds operation s h =
      Later-Before (recovery_rules encode) IsGood Before first_state-IsGood recover-IsGood
        Before-refl Before-trans (run_recovery empty_machine cs)
        (run_recovery (run_recovery empty_machine cs) ds) operation s
        (run-Later (recovery_rules encode) (run_recovery empty_machine cs) ds)
        (λ o t e. recovery_bound cs o t e) h

-- The recovery machine refuses an event identifier that an operation has used, for every other
-- event of that operation, whatever calls came in between. Both events are valid, and `strip`,
-- `normalize` and `json.dumps` do what the library documents: on visible ASCII text the first two
-- change nothing, and the last prints dictionaries with these keys differently when a value differs.
pub recovery_reused :
    (codec : Codec)
    → IsCodec codec
    → (m n : Machine RecoveryClientState) (s t u : RecoveryClientState)
      (event other : RecoveryTransitionEvent)
      (cs : List (Command RecoveryClientState RecoveryTransitionEvent Text))
    → check_event event ≡ ok tt
    → check_event other ≡ ok tt
    → advance_recovery (fingerprint codec) m s event ≡ ok (t, n)
    → u.operation_id ≡ s.operation_id
    → other.event_id ≡ event.event_id
    → event ≢ other
    → advance_recovery (fingerprint codec) (run_recovery (fingerprint codec) n cs) u other
      ≡ raise event_reused
unfolding advance_recovery
recovery_reused codec codes_well m n s t u event other cs valid other_valid h operation same
      differ =
    let rules = recovery_rules (fingerprint codec) in
    advance_reused rules m n (run_recovery (fingerprint codec) n cs) s t u event other h
      (run-Later rules n cs) (ground (arith, operation, same))
      (λ e. differ (fingerprint_injective codec codes_well event other valid other_valid e))
