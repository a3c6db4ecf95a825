-- ===== src/Certificates/RoundTrip.antt =====
-- What `to_dict` writes, `from_dict` reads: the objects of attempt_certificates.py.
use locus_v.Prelude.{ℕ, ◌≡◌, not, List, [], ◌∷◌, refl, ap, ◌∙◌, arith, ltb}
use locus_v.Prelude.Lists.{All}
use locus_v.Prelude.Counts.{All-mono}
use locus_v.Prelude.Results.{ok, bind-ok, raise_if-ok}
use locus_v.Certificates.Values.{
  Text, Bytes, integer, string, get_integer, get_hex, exact_dict, is_hex,
}
use locus_v.Certificates.Hash.{Crypto}
use locus_v.Certificates.Config.{AuthorizerConfig, PublicKeys}
use locus_v.Certificates.Accepted.{
  IsVote, verify_prepare-IsPrepared, verify_authorization-IsAuthorized,
}
use locus_v.Certificates.Entry.{
  AttemptEntry, build_entry, validate_entry, entry_to_dict, entry_from_dict,
}
use locus_v.Certificates.Votes.{
  VoteKind, entry_kind, install_kind, freshness_kind, Vote, build_vote, validate_shape,
  vote_to_dict, vote_from_dict, vote_items, read_votes,
}
use locus_v.Certificates.Prepare.{
  PrepareCertificate, verify_prepare, prepare_to_dict, prepare_from_dict,
}
use locus_v.Certificates.Authorization.{
  AuthorizationCertificate, verify_authorization, authorization_to_dict, authorization_from_dict,
}

pub get_hex-string : (n : ℕ) (t u : Text) → get_hex n (string t) ≡ ok u → t ≡ u
unfolding get_hex
get_hex-string n t u h =
    let (_, rest) = raise_if-ok (not (is_hex n t)) _ _ _ h in ground (arith, rest)

get_integer-integer : (m n k : ℕ) → get_integer m (integer n) ≡ ok k → n ≡ k
unfolding get_integer
get_integer-integer m n k h = let (_, rest) = raise_if-ok (ltb n m) _ _ _ h in ground (arith, rest)

-- A valid entry is what its fields build.
build_entry_lem :
    (e x : AttemptEntry)
    → build_entry
        (string e.bid)
        (integer e.epoch)
        (string e.config_digest)
        (integer e.log_index)
        (string e.previous_head)
        (string e.sid)
        (string e.request_digest)
        (string e.tpass_request_hash)
        (integer e.resulting_consumed)
        (integer e.effective_budget)
      ≡ ok x
    → x ≡ e
unfolding build_entry
build_entry_lem e x h0 =
    let (b, p1, h1) = bind-ok (get_hex 16 (string e.bid)) _ _ h0 in
    let (n, p2, h2) = bind-ok (get_integer 1 (integer e.epoch)) _ _ h1 in
    let (c, p3, h3) = bind-ok (get_hex 32 (string e.config_digest)) _ _ h2 in
    let (i, p4, h4) = bind-ok (get_integer 1 (integer e.log_index)) _ _ h3 in
    let (g, p5, h5) = bind-ok (get_hex 32 (string e.previous_head)) _ _ h4 in
    let (s, p6, h6) = bind-ok (get_hex 32 (string e.sid)) _ _ h5 in
    let (r, p7, h7) = bind-ok (get_hex 32 (string e.request_digest)) _ _ h6 in
    let (t, p8, h8) = bind-ok (get_hex 32 (string e.tpass_request_hash)) _ _ h7 in
    let (k, p9, h9) = bind-ok (get_integer 1 (integer e.resulting_consumed)) _ _ h8 in
    let (m, p10, h10) = bind-ok (get_integer 1 (integer e.effective_budget)) _ _ h9 in
    let (_, rest) = raise_if-ok (ltb m k) _ _ _ h10 in
    ground (
      arith,
      rest,
      get_hex-string 16 e.bid b p1,
      get_integer-integer 1 e.epoch n p2,
      get_hex-string 32 e.config_digest c p3,
      get_integer-integer 1 e.log_index i p4,
      get_hex-string 32 e.previous_head g p5,
      get_hex-string 32 e.sid s p6,
      get_hex-string 32 e.request_digest r p7,
      get_hex-string 32 e.tpass_request_hash t p8,
      get_integer-integer 1 e.resulting_consumed k p9,
      get_integer-integer 1 e.effective_budget m p10,
    )

entry_built :
    (e : AttemptEntry)
    → validate_entry e ≡ ok tt
    → build_entry
        (string e.bid)
        (integer e.epoch)
        (string e.config_digest)
        (integer e.log_index)
        (string e.previous_head)
        (string e.sid)
        (string e.request_digest)
        (string e.tpass_request_hash)
        (integer e.resulting_consumed)
        (integer e.effective_budget)
      ≡ ok e
unfolding validate_entry
entry_built e h =
    let (x, built, _) =
      bind-ok
        (build_entry (string e.bid) (integer e.epoch) (string e.config_digest) (integer e.log_index)
          (string e.previous_head) (string e.sid) (string e.request_digest)
          (string e.tpass_request_hash) (integer e.resulting_consumed) (integer e.effective_budget))
        _ _ h in
    built ∙ ap ok (build_entry_lem e x built)

-- A valid attempt entry is read back from its dictionary.
pub entry_from_dict-entry_to_dict :
    (e : AttemptEntry) → validate_entry e ≡ ok tt → entry_from_dict (entry_to_dict e) ≡ ok e
unfolding entry_from_dict exact_dict
entry_from_dict-entry_to_dict e h = entry_built e h

build_vote_lem :
    (v x : Vote)
    → build_vote (integer v.authorizer_id) (string v.subject) (string v.signature) ≡ ok x
    → x ≡ v
unfolding build_vote
build_vote_lem v x h0 =
    let (i, p1, h1) = bind-ok (get_integer 1 (integer v.authorizer_id)) _ _ h0 in
    let (_, h2) = raise_if-ok (ltb 255 i) _ _ _ h1 in
    let (g, p2, h3) = bind-ok (get_hex 32 (string v.subject)) _ _ h2 in
    let (s, p3, rest) = bind-ok (get_hex 64 (string v.signature)) _ _ h3 in
    ground (
      arith,
      rest,
      get_integer-integer 1 v.authorizer_id i p1,
      get_hex-string 32 v.subject g p2,
      get_hex-string 64 v.signature s p3,
    )

vote_built :
    (v : Vote)
    → validate_shape v ≡ ok tt
    → build_vote (integer v.authorizer_id) (string v.subject) (string v.signature) ≡ ok v
unfolding validate_shape
vote_built v h =
    let (x, built, _) =
      bind-ok (build_vote (integer v.authorizer_id) (string v.subject) (string v.signature)) _ _
        h in
    built ∙ ap ok (build_vote_lem v x built)

vote_from_dict-vote_to_dict :
    (k : VoteKind) (v : Vote)
    → validate_shape v ≡ ok tt
    → vote_from_dict k (vote_to_dict k v) ≡ ok v
unfolding vote_from_dict exact_dict
vote_from_dict-vote_to_dict entry_kind v h = vote_built v h
vote_from_dict-vote_to_dict install_kind v h = vote_built v h
vote_from_dict-vote_to_dict freshness_kind v h = vote_built v h

read_votes-vote_items :
    (k : VoteKind) (vs : List Vote)
    → All (λ v. validate_shape v ≡ ok tt) vs
    → read_votes k (vote_items k vs) ≡ ok vs
read_votes-vote_items k [] h = refl
read_votes-vote_items k (v ∷ vs) (shape, shapes) =
    ground (arith, vote_from_dict-vote_to_dict k v shape, read_votes-vote_items k vs shapes)

shapes :
    (crypto : Crypto) (keys : PublicKeys) (subject : Text) (message : Bytes) (vs : List Vote)
    → All (IsVote crypto keys subject message) vs
    → All (λ v. validate_shape v ≡ ok tt) vs
shapes crypto keys subject message vs h =
    All-mono (IsVote crypto keys subject message) (λ v. validate_shape v ≡ ok tt) vs
      (λ v x. x.shape) h

prepare_read :
    (p : PrepareCertificate)
    → validate_entry p.entry ≡ ok tt
    → All (λ v. validate_shape v ≡ ok tt) p.votes
    → prepare_from_dict (prepare_to_dict p) ≡ ok p
unfolding prepare_from_dict exact_dict
prepare_read p entry votes = ground (
  arith,
  entry_from_dict-entry_to_dict p.entry entry,
  read_votes-vote_items entry_kind p.votes votes,
)

-- A prepare certificate that verifies is read back from its dictionary.
pub prepare_from_dict-prepare_to_dict :
    (crypto : Crypto) (p : PrepareCertificate) (c : AuthorizerConfig)
    → verify_prepare crypto p c ≡ ok tt
    → prepare_from_dict (prepare_to_dict p) ≡ ok p
prepare_from_dict-prepare_to_dict crypto p c h =
    let x = verify_prepare-IsPrepared crypto p c h in
    prepare_read p x.entry (shapes crypto c.public_keys _ _ p.votes x.votes)

-- An authorization certificate that verifies is read back from its dictionary.
pub authorization_from_dict-authorization_to_dict :
    (crypto : Crypto) (a : AuthorizationCertificate) (c : AuthorizerConfig)
    → verify_authorization crypto a c ≡ ok tt
    → authorization_from_dict (authorization_to_dict a) ≡ ok a
unfolding authorization_from_dict exact_dict
authorization_from_dict-authorization_to_dict crypto a c h =
    let x = verify_authorization-IsAuthorized crypto a c h in
    ground (
      arith,
      prepare_read a.prepare x.prepared.entry
          (shapes crypto c.public_keys _ _ a.prepare.votes x.prepared.votes),
      read_votes-vote_items install_kind a.install_votes
          (shapes crypto c.public_keys _ _ a.install_votes x.votes),
    )
