-- ===== src/PartyStore/PhaseTests.antt =====
-- The theorems on the phases of prototype/locus/party_store.py at a concrete session.
use locus_v.Prelude.{◌≤◌, ◌≡◌, refl, some, [], ◌∷◌}
use locus_v.Prelude.Eq.{nat_eq, list_eq}
use locus_v.Prelude.Counts.{sorted}
use locus_v.Prelude.Sets.{to_set}
use locus_v.Prelude.Lists.{count}
use locus_v.Prelude.Results.{ok}
use locus_v.Certificates.Authorization.{authorization_hash}
use locus_v.Certificates.Samples.{toy, zero_hex, digest, vote, install_vote}
use locus_v.PartyStore.Tables.{Store, PhaseRow, empty_store, select, append_audit}
use locus_v.PartyStore.Ledger.{attempt_hash, advance_row, first_row}
use locus_v.PartyStore.Phases.{
  CommitmentRequest, at_phase, new_phase, reservation_of, reserve_commitment, hash_part,
}
use locus_v.PartyStore.PhaseUpdates.{store_commitment, set_commitment, move_phase}
use locus_v.PartyStore.PhaseSteps.{reserved, commitment_put}
use locus_v.PartyStore.Steps.{phase_moved, Reach, start, next}
use locus_v.PartyStore.PhaseChange.{Forward}
use locus_v.PartyStore.PhaseLaws.{phase-Forward}
use locus_v.PartyStore.PhaseBudget.{of_party, phases-IsBudgeted}
use locus_v.PartyStore.Samples.{
  genesis_config, attempt, enrolled_store, installed_store, installed-Reach,
}

abbrev request : CommitmentRequest
request = record {
  bid = zero_hex 32;
  epoch = 1;
  sid = zero_hex 64;
  party_id = 1;
  request = 191 ∷ [];
  selected = 1 ∷ 2 ∷ [];
  certificate_hash = attempt.certificate_hash;
  freshness_digest = zero_hex 64;
}

abbrev fresh : PhaseRow
fresh = new_phase toy (zero_hex 64) request

abbrev reserved_store : Store
unfolding append_audit
reserved_store = record installed_store {
  phases = fresh ∷ [];
  audit_events =
      append_audit toy "TPASS_COMMITMENT_INTENT" (zero_hex 32) 1 (zero_hex 64)
        installed_store.audit_events;
}

abbrev committed_store : Store
unfolding append_audit hash_part reserved_store
committed_store =
    move_phase toy (zero_hex 64) (set_commitment (7 ∷ [])) "TPASS_COMMITMENT_STORED"
      (hash_part toy "LOCUS/commitment/v1" (7 ∷ [])) fresh reserved_store

reserving :
    reserve_commitment toy (zero_hex 64) request installed_store
    ≡ ok (reservation_of fresh, reserved_store)
unfolding reserve_commitment reserved_store installed_store enrolled_store to_set sorted digest vote
    install_vote attempt_hash authorization_hash
reserving = refl

committing : store_commitment toy (zero_hex 64) (7 ∷ []) reserved_store ≡ ok committed_store
unfolding store_commitment reserved_store committed_store
committing = refl

reserved-Reach : Reach toy empty_store reserved_store
reserved-Reach =
    next installed-Reach
      (phase_moved (reserved (zero_hex 64) request (reservation_of fresh) reserving))

phase-Forward_example :
    (y : PhaseRow) × (select (at_phase (zero_hex 64)) committed_store.phases ≡ some y)
    × Forward fresh y
unfolding reserved_store
phase-Forward_example =
    phase-Forward toy reserved_store committed_store (zero_hex 64) fresh reserved-Reach
      (next start (phase_moved (commitment_put (zero_hex 64) (7 ∷ []) committing))) refl

phases-IsBudgeted_example : count (of_party (zero_hex 32) 1 1) reserved_store.phases ≤ 3
unfolding reserved_store installed_store enrolled_store attempt_hash
phases-IsBudgeted_example =
    phases-IsBudgeted toy reserved_store (zero_hex 32) 1 1
      (advance_row (attempt_hash toy attempt) attempt (first_row genesis_config)) reserved-Reach
      refl
