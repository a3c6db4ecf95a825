-- ===== src/PartyStore/FreshnessVotes.antt =====
-- create_freshness_vote of prototype/locus/party_store.py.
use locus_v.Prelude.{ℕ, Bool, not, ◌&&◌, ◌||◌, Option, none, some, ◌∷◌}
use locus_v.Prelude.Eq.{◌==◌, nat_eq, list_eq}
use locus_v.Prelude.Results.{ok, ◌>>=◌, ◌>>◌, raise_if, or_raise}
use locus_v.Certificates.Values.{Text}
use locus_v.Certificates.Hash.{Crypto}
use locus_v.Certificates.Config.{AuthorizerConfig, validate_config, config_digest}
use locus_v.Certificates.Votes.{
  Vote, AuthorizerSigner, freshness_kind, vote_to_dict, vote_from_dict,
}
use locus_v.Certificates.Freshness.{
  FreshnessRequest, validate_request, request_hash, request_to_dict, create_freshness_vote,
}
use locus_v.PartyStore.Tables.{
  invalid_state, Stored, lift, AttemptRow, FreshnessRow, Store, is_active, select, at_epoch,
  append_audit,
}

abbrev pub by_certificate : Text → ℕ → Text → AttemptRow → Bool
by_certificate bid epoch hash r = r.bid == bid && r.epoch == epoch && r.certificate_hash == hash

-- The primary key of a freshness vote.
abbrev pub at_freshness : Text → ℕ → FreshnessRow → Bool
at_freshness hash id r = r.freshness_request_hash == hash && r.authorizer_id == id

abbrev pub freshness_over :
    Crypto
    → FreshnessRequest
    → Text
    → AuthorizerSigner
    → Store
    → Option FreshnessRow
    → Stored (Vote × Store)
freshness_over crypto request hash signer s (some existing) = do
  v ← lift (vote_from_dict freshness_kind (crypto.loads existing.vote_bytes))
  ok (v, s)
freshness_over crypto request hash signer s none = do
  vote ← lift (create_freshness_vote crypto request signer)
  ok (
    vote,
    record s {
      freshness_votes =
          (record {
            freshness_request_hash = hash;
            authorizer_id = signer.party_id;
            request_bytes = crypto.encode (request_to_dict request);
            vote_bytes = crypto.encode (vote_to_dict freshness_kind vote);
          })
          ∷ s.freshness_votes;
      audit_events =
          append_audit crypto "RESPONSE_FRESHNESS_VOTED" request.bid request.epoch hash
            s.audit_events;
    },
  )

unfoldable pub vote_freshness :
    Crypto → FreshnessRequest → AuthorizerConfig → AuthorizerSigner → Store → Stored (Vote × Store)
unfolding validate_request validate_config config_digest request_hash create_freshness_vote
    vote_from_dict append_audit
vote_freshness crypto request config signer s = do
  lift (validate_request request)
  lift (validate_config config)
  digest ← lift (config_digest crypto config)
  raise_if
      (not (request.bid == config.bid)
        || not (request.epoch == config.epoch)
        || not (request.config_digest == digest))
      invalid_state
  row ← or_raise (select (at_epoch request.bid request.epoch) s.epochs) invalid_state
  raise_if
      (not (is_active row.status)
        || not (row.party_id == signer.party_id)
        || not (row.config_digest == digest))
      invalid_state
  attempt ←
      or_raise
        (select (by_certificate request.bid request.epoch request.authorization_hash) s.attempts)
        invalid_state
  raise_if (not (attempt.request_digest == request.request_digest)) invalid_state
  hash ← lift (request_hash crypto request)
  freshness_over crypto request hash signer s
      (select (at_freshness hash signer.party_id) s.freshness_votes)
