-- ===== src/Contracts/Directory.antt =====
-- The party directory and the lifecycle binding of prototype_final/locus/contracts.py.
use locus_v.Prelude.{ℕ, ◌+◌, Bool, true, false, not, List, [], ◌∷◌, ltb, map, if◌then◌else◌}
use locus_v.Prelude.Eq.{◌==◌, nat_eq, list_eq}
use locus_v.Prelude.Lists.{length}
use locus_v.Prelude.Sets.{contains, to_set}
use locus_v.Prelude.Ordered.{is_canonical}
use locus_v.Prelude.Results.{ok, ◌>>=◌, ◌>>◌, raise_if}
use locus_v.Contracts.Values.{
  Text, Checked, identifier, positive_int, max_epoch, max_parties, not_canonical,
  threshold_exceeds_parties, holder_is_no_authorizer, membership_mismatch, mixed_suites,
  epoch_not_consecutive,
}

pub record ThresholdParameters : Type 0 where
  pub k : ℕ
  pub n : ℕ

unfoldable pub check_threshold : ThresholdParameters → Checked (Unit {0})
check_threshold t = do
  _ ← positive_int max_parties t.k
  _ ← positive_int max_parties t.n
  raise_if (ltb t.n t.k) threshold_exceeds_parties

pub record AuthorizerEndpoint : Type 0 where
  pub authorizer_id : ℕ
  pub endpoint : Text
  pub identity_digest : Text

unfoldable pub check_endpoint : AuthorizerEndpoint → Checked (Unit {0})
check_endpoint a = do
  _ ← positive_int max_parties a.authorizer_id
  _ ← identifier a.endpoint
  _ ← identifier a.identity_digest
  ok tt

pub record RecoveryHolder : Type 0 where
  pub holder_id : ℕ
  pub authorizer_id : ℕ
  pub suite_id : Text

unfoldable pub check_holder : RecoveryHolder → Checked (Unit {0})
check_holder h = do
  _ ← positive_int max_parties h.holder_id
  _ ← positive_int max_parties h.authorizer_id
  _ ← identifier h.suite_id
  ok tt

pub record PartyDirectorySnapshot : Type 0 where
  pub authorizers : List AuthorizerEndpoint
  pub recovery_holders : List RecoveryHolder
  pub authorization_quorum : ℕ
  pub recovery_threshold : ThresholdParameters

-- any(holder.authorizer_id not in authorizer_ids for holder in self.recovery_holders)
abbrev pub has_stranger : List ℕ → List RecoveryHolder → Bool
has_stranger ids [] = false
has_stranger ids (h ∷ hs) =
    let rest = has_stranger ids hs in if contains ids h.authorizer_id then rest else true

abbrev pub authorizer_ids : PartyDirectorySnapshot → List ℕ
authorizer_ids d = map (λ a. a.authorizer_id) d.authorizers

abbrev pub holder_ids : PartyDirectorySnapshot → List ℕ
holder_ids d = map (λ h. h.holder_id) d.recovery_holders

unfoldable pub check_directory : PartyDirectorySnapshot → Checked (Unit {0})
check_directory d = do
  raise_if (not (is_canonical (authorizer_ids d))) not_canonical
  raise_if (not (is_canonical (holder_ids d))) not_canonical
  _ ← positive_int (length (authorizer_ids d)) d.authorization_quorum
  raise_if (has_stranger (authorizer_ids d) d.recovery_holders) holder_is_no_authorizer
  raise_if (not (length d.recovery_holders == d.recovery_threshold.n)) membership_mismatch
  raise_if (not (length (to_set (map (λ h. h.suite_id) d.recovery_holders)) == 1)) mixed_suites

pub record LifecycleBinding : Type 0 where
  pub backup_id : Text
  pub predecessor_epoch : ℕ
  pub successor_epoch : ℕ
  pub successor_configuration_digest : Text

unfoldable pub check_lifecycle : LifecycleBinding → Checked (Unit {0})
check_lifecycle l = do
  _ ← identifier l.backup_id
  _ ← positive_int max_epoch l.predecessor_epoch
  _ ← positive_int max_epoch l.successor_epoch
  raise_if (not (l.successor_epoch == l.predecessor_epoch + 1)) epoch_not_consecutive
  _ ← identifier l.successor_configuration_digest
  ok tt
