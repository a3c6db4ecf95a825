-- ===== src/PartyStore/PhaseSteps.antt =====
-- The transactions on phases and freshness votes of prototype/locus/party_store.py as steps.
use locus_v.Prelude.{ℕ, ◌≡◌}
use locus_v.Prelude.Results.{ok}
use locus_v.Certificates.Values.{Text, Bytes}
use locus_v.Certificates.Hash.{Crypto}
use locus_v.Certificates.Config.{AuthorizerConfig}
use locus_v.Certificates.Votes.{Vote, AuthorizerSigner}
use locus_v.Certificates.Freshness.{FreshnessRequest}
use locus_v.PartyStore.Tables.{Store}
use locus_v.PartyStore.Rows.{Distinct}
use locus_v.PartyStore.Phases.{PhaseReservation, CommitmentRequest, reserve_commitment}
use locus_v.PartyStore.PhaseUpdates.{
  store_commitment, store_response, mark_open_phases_lost, mark_phase_lost,
}
use locus_v.PartyStore.FreshnessVotes.{vote_freshness}
use locus_v.PartyStore.OnPhases.{
  OnPhases, reserve_commitment-OnPhases, store_commitment-OnPhases, store_response-OnPhases,
  mark_phase_lost-OnPhases,
}
use locus_v.PartyStore.OnFreshness.{vote_freshness-OnPhases}
use locus_v.PartyStore.Losing.{
  Quiet, same_phase, mark_open_phases_lost-Quiet, mark_open_phases_lost-OnPhases,
}

-- A transaction that was committed.
pub data PhaseStep (crypto : Crypto) (s : Store) : Store → Type 0 where
  reserved :
      {t : Store} (token : Text) (c : CommitmentRequest) (v : PhaseReservation)
      → reserve_commitment crypto token c s ≡ ok (v, t)
      → PhaseStep crypto s t
  commitment_put :
      {t : Store} (id : Text) (b : Bytes)
      → store_commitment crypto id b s ≡ ok t
      → PhaseStep crypto s t
  response_put :
      {t : Store} (id : Text) (b : Bytes)
      → store_response crypto id b s ≡ ok t
      → PhaseStep crypto s t
  phase_lost : {t : Store} (id : Text) → mark_phase_lost crypto id s ≡ ok t → PhaseStep crypto s t
  all_lost : {t : Store} (n : ℕ) → mark_open_phases_lost crypto s ≡ (n, t) → PhaseStep crypto s t
  freshness_voted :
      {t : Store} (q : FreshnessRequest) (c : AuthorizerConfig) (g : AuthorizerSigner) (v : Vote)
      → vote_freshness crypto q c g s ≡ ok (v, t)
      → PhaseStep crypto s t

pub PhaseStep-OnPhases :
    (crypto : Crypto) (s t : Store)
    → Distinct same_phase s.phases
    → PhaseStep crypto s t
    → OnPhases s t
PhaseStep-OnPhases crypto s t d (reserved token c v h) =
    reserve_commitment-OnPhases crypto token c s t v h
PhaseStep-OnPhases crypto s t d (commitment_put id b h) =
    store_commitment-OnPhases crypto id b s t h
PhaseStep-OnPhases crypto s t d (response_put id b h) = store_response-OnPhases crypto id b s t h
PhaseStep-OnPhases crypto s t d (phase_lost id h) = mark_phase_lost-OnPhases crypto id s t h
PhaseStep-OnPhases crypto s t d (all_lost n h) = mark_open_phases_lost-OnPhases crypto n s t d h
PhaseStep-OnPhases crypto s t d (freshness_voted q c g v h) =
    vote_freshness-OnPhases crypto q c g s t v h

quiet : (s t : Store) → OnPhases s t → Quiet s t
quiet s t h = record {
  same_epochs = h.same_epochs;
  same_attempts = h.same_attempts;
  same_locks = h.same_locks;
  same_transitions = h.same_transitions;
}

pub PhaseStep-Quiet : (crypto : Crypto) (s t : Store) → PhaseStep crypto s t → Quiet s t
PhaseStep-Quiet crypto s t (reserved token c v h) =
    quiet s t (reserve_commitment-OnPhases crypto token c s t v h)
PhaseStep-Quiet crypto s t (commitment_put id b h) =
    quiet s t (store_commitment-OnPhases crypto id b s t h)
PhaseStep-Quiet crypto s t (response_put id b h) =
    quiet s t (store_response-OnPhases crypto id b s t h)
PhaseStep-Quiet crypto s t (phase_lost id h) = quiet s t (mark_phase_lost-OnPhases crypto id s t h)
PhaseStep-Quiet crypto s t (all_lost n h) = mark_open_phases_lost-Quiet crypto n s t h
PhaseStep-Quiet crypto s t (freshness_voted q c g v h) =
    quiet s t (vote_freshness-OnPhases crypto q c g s t v h)
