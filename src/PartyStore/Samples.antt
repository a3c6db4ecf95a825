-- ===== src/PartyStore/Samples.antt =====
-- A party store with an enrolled epoch and an installed attempt.
use locus_v.Prelude.{◌≡◌, refl, [], ◌∷◌}
use locus_v.Prelude.Eq.{nat_eq}
use locus_v.Prelude.Counts.{sorted}
use locus_v.Prelude.Results.{ok}
use locus_v.Certificates.Authorization.{authorization_hash}
use locus_v.Certificates.Samples.{toy, digest, vote, install_vote, zero_hex, authorization}
use locus_v.PartyStore.Tables.{Store, empty_store, append_audit}
use locus_v.PartyStore.Ledger.{
  EpochConfig, first_row, enroll_epoch, AttemptAuthorization, attempt_row, advance_row,
  attempt_hash, install_authorization,
}
use locus_v.PartyStore.Authorizations.{authorization_fields}
use locus_v.PartyStore.Steps.{Reach, enrolled, authorized, start, next}

abbrev pub genesis_config : EpochConfig
genesis_config = record {
  bid = zero_hex 32;
  epoch = 1;
  party_id = 1;
  config_digest = digest;
  backup_digest = zero_hex 64;
  budget = 3;
  genesis = zero_hex 64;
}

abbrev pub attempt : AttemptAuthorization
attempt = authorization_fields toy authorization

unfoldable pub enrolled_store : Store
unfolding append_audit
enrolled_store = record empty_store {
  epochs = first_row genesis_config ∷ [];
  audit_events = append_audit toy "EPOCH_ENROLLED" (zero_hex 32) 1 digest [];
}

unfoldable pub installed_store : Store
unfolding append_audit attempt_hash
installed_store = record enrolled_store {
  epochs = advance_row (attempt_hash toy attempt) attempt (first_row genesis_config) ∷ [];
  attempts = attempt_row (attempt_hash toy attempt) attempt ∷ [];
  audit_events =
      append_audit toy "ATTEMPT_AUTHORIZATION_INSTALLED" (zero_hex 32) 1 (zero_hex 64)
        enrolled_store.audit_events;
}

enrolling : enroll_epoch toy genesis_config empty_store ≡ ok enrolled_store
unfolding enrolled_store enroll_epoch sorted digest
enrolling = refl

installing :
    install_authorization toy attempt enrolled_store
    ≡ ok (attempt_hash toy attempt, installed_store)
unfolding installed_store enrolled_store attempt_hash append_audit install_authorization sorted
    authorization_hash install_vote vote digest
installing = refl

pub installed-Reach : Reach toy empty_store installed_store
installed-Reach =
    next (next start (enrolled genesis_config enrolling))
      (authorized attempt (attempt_hash toy attempt) installing)
