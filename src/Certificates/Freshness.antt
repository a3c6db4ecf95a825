-- ===== src/Certificates/Freshness.antt =====
-- FreshnessRequest, FreshnessVote and ResponseFreshnessCertificate of
-- prototype_final/locus/attempt_certificates.py.
use Prim.Native.String.{String}
use locus_v.Prelude.{ℕ, not, ◌||◌, List, [], ◌∷◌, ltb}
use locus_v.Prelude.Eq.{◌==◌, nat_eq, list_eq}
use locus_v.Prelude.Lists.{length}
use locus_v.Prelude.Counts.{sorted}
use locus_v.Prelude.Ordered.{is_canonical}
use locus_v.Prelude.Results.{ok, raise, ◌>>=◌, ◌>>◌, raise_if, or_raise}
use locus_v.Certificates.Values.{
  Text, Value, integer, string, array, object, last, member, invalid, unsupported,
  configuration_mismatch, vote_mismatch, duplicate_or_noncanonical_votes, insufficient_quorum,
  Checked, codes, get_integer, get_hex, exact_dict, field_of, is_literal,
}
use locus_v.Certificates.Hash.{Crypto, hash_bytes, to_hex, from_hex}
use locus_v.Certificates.Config.{AuthorizerConfig, validate_config, config_digest, key_of}
use locus_v.Certificates.Votes.{
  freshness_kind, Vote, AuthorizerSigner, validate_shape, verify_signature, check_votes,
  authorizer_ids, by_authorizer, vote_items, read_votes,
}
use locus_v.Certificates.Prepare.{is_array}

pub record FreshnessRequest : Type 0 where
  pub bid : Text
  pub epoch : ℕ
  pub config_digest : Text
  pub authorization_hash : Text
  pub request_digest : Text
  pub responding_party_id : ℕ
  pub phase : Text
  pub boot_nonce : Text
  pub response_nonce : Text

-- self.phase != "commitment", of a value that may not be a string
abbrev pub get_phase : ℕ → Value → Checked Text
get_phase party_id (string t) = do
  raise_if (ltb 255 party_id || not (t == codes "commitment")) invalid
  ok t
get_phase party_id _ = raise invalid

-- FreshnessRequest(...).validate(), with fields that may be of any type.
unfoldable pub build_request :
    Value → Value → Value → Value → Value → Value → Value → Value → Value → Checked FreshnessRequest
build_request bid epoch config_digest authorization_hash request_digest responding_party_id phase
      boot_nonce response_nonce =
    do
      b ← get_hex 16 bid
      e ← get_integer 1 epoch
      c ← get_hex 32 config_digest
      a ← get_hex 32 authorization_hash
      r ← get_hex 32 request_digest
      i ← get_integer 1 responding_party_id
      p ← get_phase i phase
      n ← get_hex 32 boot_nonce
      m ← get_hex 32 response_nonce
      ok (record {
        bid = b;
        epoch = e;
        config_digest = c;
        authorization_hash = a;
        request_digest = r;
        responding_party_id = i;
        phase = p;
        boot_nonce = n;
        response_nonce = m;
      })

unfoldable pub validate_request : FreshnessRequest → Checked (Unit {0})
unfolding build_request
validate_request q = do
  _ ←
      build_request (string q.bid) (integer q.epoch) (string q.config_digest)
        (string q.authorization_hash) (string q.request_digest) (integer q.responding_party_id)
        (string q.phase) (string q.boot_nonce) (string q.response_nonce)
  ok tt

abbrev pub request_to_dict : FreshnessRequest → Value
request_to_dict q = object (
    member "authorization_hash" (string q.authorization_hash) (
      member "bid" (string q.bid) (
        member "boot_nonce" (string q.boot_nonce) (
          member "config_digest" (string q.config_digest) (
            member "epoch" (integer q.epoch) (
              member "phase" (string q.phase) (
                member "request_digest" (string q.request_digest) (
                  member "responding_party_id" (integer q.responding_party_id) (
                    member "response_nonce" (string q.response_nonce) (
                      member "version" (string (codes "LOCUS-response-freshness-request-v1"))
                        last))))))))))

abbrev pub request_fields : List String
request_fields =
    "authorization_hash" ∷ "bid" ∷ "boot_nonce" ∷ "config_digest" ∷ "epoch" ∷ "phase"
    ∷ "request_digest" ∷ "responding_party_id" ∷ "response_nonce" ∷ "version" ∷ []

unfoldable pub request_from_dict : Value → Checked FreshnessRequest
unfolding build_request
request_from_dict value = do
  p ← exact_dict request_fields value
  raise_if (not (is_literal (field_of p "version") "LOCUS-response-freshness-request-v1"))
      unsupported
  build_request (field_of p "bid") (field_of p "epoch") (field_of p "config_digest")
      (field_of p "authorization_hash") (field_of p "request_digest")
      (field_of p "responding_party_id") (field_of p "phase") (field_of p "boot_nonce")
      (field_of p "response_nonce")

unfoldable pub request_hash : Crypto → FreshnessRequest → Checked Text
unfolding validate_request hash_bytes to_hex
request_hash crypto q = do
  validate_request q
  ok (
      to_hex
        (hash_bytes crypto "LOCUS/response-freshness/v1" (crypto.encode (request_to_dict q) ∷ [])))

unfoldable pub create_freshness_vote : Crypto → FreshnessRequest → AuthorizerSigner → Checked Vote
unfolding request_hash to_hex from_hex
create_freshness_vote crypto q signer = do
  h ← request_hash crypto q
  ok (record {
    authorizer_id = signer.party_id;
    subject = h;
    signature = to_hex (crypto.sign signer.private_key (from_hex h));
  })

-- FreshnessVote.verify
unfoldable pub verify_freshness_vote :
    Crypto → Vote → FreshnessRequest → AuthorizerConfig → Checked (Unit {0})
unfolding request_hash config_digest validate_config validate_request validate_shape
    verify_signature
verify_freshness_vote crypto v q config = do
  validate_request q
  validate_config config
  d ← config_digest crypto config
  h ← request_hash crypto q
  public_key ← or_raise (key_of config.public_keys v.authorizer_id) vote_mismatch
  raise_if (not (q.config_digest == d) || not (v.subject == h)) vote_mismatch
  validate_shape v
  verify_signature crypto public_key v.signature (from_hex h)

pub record ResponseFreshnessCertificate : Type 0 where
  pub request : FreshnessRequest
  pub votes : List Vote

unfoldable pub verify_freshness :
    Crypto → ResponseFreshnessCertificate → AuthorizerConfig → Checked (Unit {0})
unfolding request_hash config_digest validate_config validate_request check_votes from_hex
verify_freshness crypto f config = do
  validate_config config
  validate_request f.request
  d ← config_digest crypto config
  raise_if
      (not (f.request.bid == config.bid)
        || not (f.request.epoch == config.epoch)
        || not (f.request.config_digest == d))
      configuration_mismatch
  raise_if (not (is_canonical (authorizer_ids f.votes))) duplicate_or_noncanonical_votes
  raise_if (ltb (length (authorizer_ids f.votes)) config.quorum) insufficient_quorum
  h ← request_hash crypto f.request
  check_votes crypto config.public_keys h (from_hex h) f.votes

unfoldable pub create_freshness :
    Crypto → FreshnessRequest → List Vote → AuthorizerConfig → Checked ResponseFreshnessCertificate
unfolding verify_freshness sorted
create_freshness crypto q votes config = do
  verify_freshness crypto (record { request = q; votes = sorted by_authorizer votes }) config
  ok (record { request = q; votes = sorted by_authorizer votes })

abbrev pub freshness_to_dict : ResponseFreshnessCertificate → Value
freshness_to_dict f = object (
    member "request" (request_to_dict f.request) (
      member "votes" (array (vote_items freshness_kind f.votes))
        (member "version" (string (codes "LOCUS-response-freshness-certificate-v1")) last)))

abbrev pub read_freshness_votes : Value → Checked (List Vote)
read_freshness_votes (array vs) = read_votes freshness_kind vs
read_freshness_votes _ = raise unsupported

unfoldable pub freshness_from_dict : Value → Checked ResponseFreshnessCertificate
unfolding request_from_dict
freshness_from_dict value = do
  p ← exact_dict ("request" ∷ "votes" ∷ "version" ∷ []) value
  raise_if
      (not (is_literal (field_of p "version") "LOCUS-response-freshness-certificate-v1")
        || not (is_array (field_of p "votes")))
      unsupported
  request ← request_from_dict (field_of p "request")
  votes ← read_freshness_votes (field_of p "votes")
  ok (record { request = request; votes = votes })

unfoldable pub freshness_hash : Crypto → ResponseFreshnessCertificate → Text
unfolding hash_bytes to_hex
freshness_hash crypto f = to_hex (
    hash_bytes crypto "LOCUS/response-freshness-certificate/v1"
      (crypto.encode (freshness_to_dict f) ∷ []))
