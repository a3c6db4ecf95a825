-- ===== src/PartyStore/OnFreshness.antt =====
-- create_freshness_vote of prototype/locus/party_store.py leaves the phases and the ledger.
use locus_v.Prelude.{not, ◌||◌, Option, none, some, ◌≡◌, refl}
use locus_v.Prelude.Eq.{◌==◌, nat_eq, list_eq}
use locus_v.Prelude.Results.{ok, or_raise, raise_if-ok, bind-ok}
use locus_v.Certificates.Values.{Text}
use locus_v.Certificates.Hash.{Crypto}
use locus_v.Certificates.Config.{AuthorizerConfig, validate_config, config_digest}
use locus_v.Certificates.Votes.{Vote, AuthorizerSigner, freshness_kind, vote_from_dict}
use locus_v.Certificates.Freshness.{
  FreshnessRequest, validate_request, request_hash, create_freshness_vote,
}
use locus_v.PartyStore.Tables.{lift, FreshnessRow, Store, is_active, select, at_epoch}
use locus_v.PartyStore.FreshnessVotes.{vote_freshness, freshness_over, by_certificate, at_freshness}
use locus_v.PartyStore.PhaseChange.{same}
use locus_v.PartyStore.OnPhases.{OnPhases, kept, ends_with}

freshness_over-OnPhases :
    (crypto : Crypto) (q : FreshnessRequest) (hash : Text) (g : AuthorizerSigner) (s t : Store)
    (o : Option FreshnessRow) (v : Vote)
    → freshness_over crypto q hash g s o ≡ ok (v, t)
    → OnPhases s t
freshness_over-OnPhases crypto q hash g s t (some x) v h =
    let (w, _, rest) =
      bind-ok (lift (vote_from_dict freshness_kind (crypto.loads x.vote_bytes))) _ _ h in
    ends_with w v s t s (kept s) rest
freshness_over-OnPhases crypto q hash g s t none v h =
    let (w, _, rest) = bind-ok (lift (create_freshness_vote crypto q g)) _ _ h in
    ends_with w v s t _
      (record {
        same_epochs = refl;
        same_attempts = refl;
        same_locks = refl;
        same_transitions = refl;
        change = same;
      })
      rest

pub vote_freshness-OnPhases :
    (crypto : Crypto) (q : FreshnessRequest) (c : AuthorizerConfig) (g : AuthorizerSigner)
    (s t : Store) (v : Vote)
    → vote_freshness crypto q c g s ≡ ok (v, t)
    → OnPhases s t
unfolding vote_freshness
vote_freshness-OnPhases crypto q c g s t v h =
    let (_, _, h1) = bind-ok (lift (validate_request q)) _ _ h in
    let (_, _, h2) = bind-ok (lift (validate_config c)) _ _ h1 in
    let (d, _, h3) = bind-ok (lift (config_digest crypto c)) _ _ h2 in
    let (_, h4) =
      raise_if-ok (not (q.bid == c.bid) || not (q.epoch == c.epoch) || not (q.config_digest == d)) _
        _ _ h3 in
    let (row, _, h5) = bind-ok (or_raise (select (at_epoch q.bid q.epoch) s.epochs) _) _ _ h4 in
    let (_, h6) =
      raise_if-ok
        (not (is_active row.status)
          || not (row.party_id == g.party_id)
          || not (row.config_digest == d))
        _ _ _ h5 in
    let (a, _, h7) =
      bind-ok (or_raise (select (by_certificate q.bid q.epoch q.authorization_hash) s.attempts) _) _
        _ h6 in
    let (_, h8) = raise_if-ok (not (a.request_digest == q.request_digest)) _ _ _ h7 in
    let (hash, _, h9) = bind-ok (lift (request_hash crypto q)) _ _ h8 in
    freshness_over-OnPhases crypto q hash g s t
      (select (at_freshness hash g.party_id) s.freshness_votes) v h9
