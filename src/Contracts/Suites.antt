-- ===== src/Contracts/Suites.antt =====
-- The recovery-suite types of prototype_final/locus/contracts.py and their checks.
use locus_v.Prelude.{
  ℕ, ◌*◌, Bool, true, false, not, ◌&&◌, ◌||◌, Option, none, some, List, [], ◌∷◌, leb, map,
  if◌then◌else◌,
}
use locus_v.Prelude.Eq.{◌==◌, nat_eq, list_eq}
use locus_v.Prelude.Lists.{length}
use locus_v.Prelude.Ordered.{is_canonical}
use locus_v.Prelude.Results.{ok, ◌>>=◌, ◌>>◌, raise_if}
use locus_v.Contracts.Values.{
  Text, Bytes, Checked, invalid, identifier, positive_int, opaque_bytes, max_epoch, max_parties,
  any, not_canonical, mixed_suites, no_party_state,
}

abbrev pub max_opaque_public_bytes : ℕ
max_opaque_public_bytes = 1024 * 1024

abbrev pub max_opaque_secret_state_bytes : ℕ
max_opaque_secret_state_bytes = 1024 * 1024

abbrev pub max_opaque_message_bytes : ℕ
max_opaque_message_bytes = 256 * 1024

-- character not in "0123456789abcdef"
abbrev pub is_no_hex : ℕ → Bool
is_no_hex c = not ((leb 48 c && leb c 57) || (leb 97 c && leb c 102))

abbrev pub check_digest : Option Text → Checked (Unit {0})
check_digest none = ok tt
check_digest (some digest) = raise_if (not (length digest == 64) || any is_no_hex digest) invalid

pub record RecoveryContext : Type 0 where
  pub suite_id : Text
  pub recovery_id : Text
  pub backup_id : Text
  pub epoch : ℕ
  pub policy_id : Text
  pub configuration_digest : Text
  pub digest_context : Text
  pub suite_context_digest : Option Text

unfoldable pub check_recovery_context : RecoveryContext → Checked (Unit {0})
check_recovery_context x = do
  _ ← identifier x.suite_id
  _ ← identifier x.recovery_id
  _ ← identifier x.backup_id
  _ ← positive_int max_epoch x.epoch
  _ ← identifier x.policy_id
  _ ← identifier x.configuration_digest
  _ ← identifier x.digest_context
  check_digest x.suite_context_digest

pub record PublicRecoveryState : Type 0 where
  pub suite_id : Text
  pub format_id : Text
  pub payload : Bytes

unfoldable pub check_public_recovery_state : PublicRecoveryState → Checked (Unit {0})
check_public_recovery_state x = do
  _ ← identifier x.suite_id
  _ ← identifier x.format_id
  _ ← opaque_bytes max_opaque_public_bytes x.payload
  ok tt

pub record PartyRecoveryState : Type 0 where
  pub suite_id : Text
  pub format_id : Text
  pub holder_id : ℕ
  pub payload : Bytes

unfoldable pub check_party_recovery_state : PartyRecoveryState → Checked (Unit {0})
check_party_recovery_state x = do
  _ ← identifier x.suite_id
  _ ← identifier x.format_id
  _ ← positive_int max_parties x.holder_id
  _ ← opaque_bytes max_opaque_secret_state_bytes x.payload
  ok tt

pub record RecoveryRequest : Type 0 where
  pub suite_id : Text
  pub format_id : Text
  pub session_id : Text
  pub recipient_id : ℕ
  pub payload : Bytes

unfoldable pub check_recovery_request : RecoveryRequest → Checked (Unit {0})
check_recovery_request x = do
  _ ← identifier x.suite_id
  _ ← identifier x.format_id
  _ ← identifier x.session_id
  _ ← positive_int max_parties x.recipient_id
  _ ← opaque_bytes max_opaque_message_bytes x.payload
  ok tt

pub record RecoveryResponse : Type 0 where
  pub suite_id : Text
  pub format_id : Text
  pub session_id : Text
  pub sender_id : ℕ
  pub payload : Bytes

unfoldable pub check_recovery_response : RecoveryResponse → Checked (Unit {0})
check_recovery_response x = do
  _ ← identifier x.suite_id
  _ ← identifier x.format_id
  _ ← identifier x.session_id
  _ ← positive_int max_parties x.sender_id
  _ ← opaque_bytes max_opaque_message_bytes x.payload
  ok tt

pub record RecoverySuiteEnrollment : Type 0 where
  pub public_state : PublicRecoveryState
  pub party_states : List PartyRecoveryState
  pub recovery_secret : Bytes

-- any(state.suite_id != self.public_state.suite_id for state in self.party_states)
abbrev pub mixes_suites : Text → List PartyRecoveryState → Bool
mixes_suites suite [] = false
mixes_suites suite (s ∷ ss) =
    let rest = mixes_suites suite ss in if s.suite_id == suite then rest else true

abbrev pub state_holders : RecoverySuiteEnrollment → List ℕ
state_holders x = map (λ s. s.holder_id) x.party_states

unfoldable pub check_suite_enrollment : RecoverySuiteEnrollment → Checked (Unit {0})
check_suite_enrollment x = do
  raise_if (length x.party_states == 0) no_party_state
  raise_if (not (is_canonical (state_holders x))) not_canonical
  raise_if (mixes_suites x.public_state.suite_id x.party_states) mixed_suites
  raise_if (length x.recovery_secret == 0) invalid
