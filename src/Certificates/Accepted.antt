-- ===== src/Certificates/Accepted.antt =====
-- What the `verify` methods of attempt_certificates.py establish when they return.
use locus_v.Prelude.{
  ℕ, ◌+◌, ◌*◌, ◌≤◌, ◌<◌, ◌≡◌, true, not, ◌||◌, Option, none, some, List, [], ◌∷◌, refl, sym, subst,
  arith, ltb, leb,
}
use locus_v.Prelude.Eq.{◌==◌, nat_eq, list_eq, eq_of_beq}
use locus_v.Prelude.Lists.{length, All}
use locus_v.Prelude.Counts.{sorted}
use locus_v.Prelude.Ordered.{is_canonical, Increasing, is_canonical-Increasing}
use locus_v.Prelude.Results.{ok, bind-ok, raise_if-ok}
use locus_v.Certificates.Values.{Text, Bytes, integer, string, get_integer, get_hex}
use locus_v.Certificates.Hash.{Crypto, from_hex}
use locus_v.Certificates.Config.{
  PublicKeys, AuthorizerConfig, key_of, check_keys, has_invalid_id, party_ids, build_config,
  validate_config, config_digest,
}
use locus_v.Certificates.Entry.{
  AttemptEntry, validate_entry, hash_entry, entry_hash, entry_vote_message, install_vote_message,
}
use locus_v.Certificates.Votes.{
  Vote, validate_shape, verify_signature, check_known, check_votes, authorizer_ids,
}
use locus_v.Certificates.Prepare.{PrepareCertificate, verify_prepare, prepare_hash}
use locus_v.Certificates.Authorization.{AuthorizationCertificate, verify_authorization}

-- A vote for `subject` that a party with a key has signed.
pub record IsVote (crypto : Crypto) (keys : PublicKeys) (subject : Text) (message : Bytes)
    (v : Vote) : Type 0 where
  pub key : Text
  pub known : key_of keys v.authorizer_id ≡ some key
  pub for_subject : v.subject ≡ subject
  pub signed : crypto.verifies (from_hex key) (from_hex v.signature) message ≡ true
  pub shape : validate_shape v ≡ ok tt

check_known-signed :
    (crypto : Crypto) (keys : PublicKeys) (o : Option Text) (subject : Text) (message : Bytes)
    (v : Vote)
    → key_of keys v.authorizer_id ≡ o
    → check_known crypto o subject message v ≡ ok tt
    → validate_shape v ≡ ok tt
    → IsVote crypto keys subject message v
unfolding verify_signature
check_known-signed crypto keys none subject message v found h shape = absurd (cc)
check_known-signed crypto keys (some key) subject message v found h shape =
    let (same, h1) = raise_if-ok (not (v.subject == subject)) _ _ _ h in
    let signed : crypto.verifies (from_hex key) (from_hex v.signature) message ≡ true =
      ground (arith, h1) in
    record {
      key = key;
      known = found;
      for_subject = eq_of_beq _ _ (ground (arith, same));
      signed = signed;
      shape = shape;
    }

pub check_votes-All :
    (crypto : Crypto) (keys : PublicKeys) (subject : Text) (message : Bytes) (vs : List Vote)
    → check_votes crypto keys subject message vs ≡ ok tt
    → All (IsVote crypto keys subject message) vs
unfolding check_votes
check_votes-All crypto keys subject message [] h = tt
check_votes-All crypto keys subject message (v ∷ vs) h =
    let (_, shape, h1) = bind-ok (validate_shape v) _ _ h in
    let (_, known, h2) =
      bind-ok (check_known crypto (key_of keys v.authorizer_id) subject message v) _ _ h1 in
    (
      check_known-signed crypto keys (key_of keys v.authorizer_id) subject message v refl known
          shape,
      check_votes-All crypto keys subject message vs h2,
    )

-- The thresholds of a valid configuration.
pub record IsConfig (c : AuthorizerConfig) : Type 0 where
  pub quorum_reachable : c.quorum ≤ length c.public_keys
  pub faults_bounded : c.fault_bound < length c.public_keys
  pub intersection : length c.public_keys + c.fault_bound < 2 * c.quorum

get_integer_lem : (m n k : ℕ) → get_integer m (integer n) ≡ ok k → n ≡ k
unfolding get_integer
get_integer_lem m n k h = let (_, rest) = raise_if-ok (ltb n m) _ _ _ h in ground (arith, rest)

pub validate_config-IsConfig : (c : AuthorizerConfig) → validate_config c ≡ ok tt → IsConfig c
unfolding validate_config build_config
validate_config-IsConfig c h =
    let (x, h0, _) =
      bind-ok
        (build_config (string c.bid) (integer c.epoch) (string c.backup_digest)
          (integer c.fault_bound) (integer c.quorum) c.public_keys)
        _ _ h in
    let (b, p1, h1) = bind-ok (get_hex 16 (string c.bid)) _ _ h0 in
    let (n, p2, h2) = bind-ok (get_integer 1 (integer c.epoch)) _ _ h1 in
    let (d, p3, h3) = bind-ok (get_hex 32 (string c.backup_digest)) _ _ h2 in
    let (q, p5, h5) = bind-ok (get_integer 1 (integer c.quorum)) _ _ h3 in
    let (_, h6) = raise_if-ok (length c.public_keys == 0) _ _ _ h5 in
    let (_, h7) = raise_if-ok (has_invalid_id (sorted leb (party_ids c.public_keys))) _ _ _ h6 in
    let (_, p8, h8) = bind-ok (check_keys c.public_keys) _ _ h7 in
    let (bounded, h9) =
      raise_if-ok (leb (length c.public_keys) c.fault_bound || ltb (length c.public_keys) q) _ _ _
        h8 in
    let (safe, _) = raise_if-ok (leb (2 * q) (length c.public_keys + c.fault_bound)) _ _ _ h9 in
    let quorum : c.quorum ≡ q = get_integer_lem 1 c.quorum q p5 in
    record {
      quorum_reachable = ground (arith, bounded, quorum);
      faults_bounded = ground (arith, bounded);
      intersection = ground (arith, safe, quorum);
    }

-- A prepare certificate whose checks have passed.
pub record IsPrepared (crypto : Crypto) (p : PrepareCertificate) (c : AuthorizerConfig)
    : Type 0 where
  pub config : IsConfig c
  pub entry : validate_entry p.entry ≡ ok tt
  pub same_bid : p.entry.bid ≡ c.bid
  pub same_epoch : p.entry.epoch ≡ c.epoch
  pub digest : Text
  pub digest_of : config_digest crypto c ≡ ok digest
  pub same_digest : p.entry.config_digest ≡ digest
  pub ordered : Increasing (authorizer_ids p.votes)
  pub enough : c.quorum ≤ length (authorizer_ids p.votes)
  pub votes :
      All
        (IsVote crypto c.public_keys
          (hash_entry crypto p.entry)
          (entry_vote_message crypto digest (hash_entry crypto p.entry)))
        p.votes

entry_hash-hash_entry :
    (crypto : Crypto) (e : AttemptEntry) (h : Text)
    → entry_hash crypto e ≡ ok h
    → hash_entry crypto e ≡ h
unfolding entry_hash
entry_hash-hash_entry crypto e h p =
    let (_, _, rest) = bind-ok (validate_entry e) _ _ p in ground (arith, rest)

pub verify_prepare-IsPrepared :
    (crypto : Crypto) (p : PrepareCertificate) (c : AuthorizerConfig)
    → verify_prepare crypto p c ≡ ok tt
    → IsPrepared crypto p c
unfolding verify_prepare
verify_prepare-IsPrepared crypto p c h0 =
    let (_, valid, h1) = bind-ok (validate_config c) _ _ h0 in
    let (_, entry, h2) = bind-ok (validate_entry p.entry) _ _ h1 in
    let (d, digest, h3) = bind-ok (config_digest crypto c) _ _ h2 in
    let (matches, h4) =
      raise_if-ok
        (not (p.entry.bid == c.bid)
          || not (p.entry.epoch == c.epoch)
          || not (p.entry.config_digest == d))
        _ _ _ h3 in
    let (ordered, h5) = raise_if-ok (not (is_canonical (authorizer_ids p.votes))) _ _ _ h4 in
    let (enough, h6) = raise_if-ok (ltb (length (authorizer_ids p.votes)) c.quorum) _ _ _ h5 in
    let (g, hashed, h7) = bind-ok (entry_hash crypto p.entry) _ _ h6 in
    record {
      config = validate_config-IsConfig c valid;
      entry = entry;
      same_bid = eq_of_beq p.entry.bid c.bid (ground (arith, matches));
      same_epoch = eq_of_beq p.entry.epoch c.epoch (ground (arith, matches));
      digest = d;
      digest_of = digest;
      same_digest = eq_of_beq p.entry.config_digest d (ground (arith, matches));
      ordered = is_canonical-Increasing (authorizer_ids p.votes) (ground (arith, ordered));
      enough = ground (arith, enough);
      votes =
          subst (λ x. All (IsVote crypto c.public_keys x (entry_vote_message crypto d x)) p.votes)
            (sym (entry_hash-hash_entry crypto p.entry g hashed))
            (check_votes-All crypto c.public_keys g (entry_vote_message crypto d g) p.votes h7);
    }

-- An authorization certificate whose checks have passed.
pub record IsAuthorized (crypto : Crypto) (a : AuthorizationCertificate) (c : AuthorizerConfig)
    : Type 0 where
  pub prepared : IsPrepared crypto a.prepare c
  pub ordered : Increasing (authorizer_ids a.install_votes)
  pub enough : c.quorum ≤ length (authorizer_ids a.install_votes)
  pub digest : Text
  pub votes :
      All
        (IsVote crypto c.public_keys
          (prepare_hash crypto a.prepare)
          (install_vote_message crypto digest (prepare_hash crypto a.prepare)))
        a.install_votes

pub verify_authorization-IsAuthorized :
    (crypto : Crypto) (a : AuthorizationCertificate) (c : AuthorizerConfig)
    → verify_authorization crypto a c ≡ ok tt
    → IsAuthorized crypto a c
unfolding verify_authorization
verify_authorization-IsAuthorized crypto a c h0 =
    let (_, prepared, h1) = bind-ok (verify_prepare crypto a.prepare c) _ _ h0 in
    let (ordered, h2) =
      raise_if-ok (not (is_canonical (authorizer_ids a.install_votes))) _ _ _ h1 in
    let (enough, h3) =
      raise_if-ok (ltb (length (authorizer_ids a.install_votes)) c.quorum) _ _ _ h2 in
    let (d, digest, h4) = bind-ok (config_digest crypto c) _ _ h3 in
    record {
      prepared = verify_prepare-IsPrepared crypto a.prepare c prepared;
      ordered = is_canonical-Increasing (authorizer_ids a.install_votes) (ground (arith, ordered));
      enough = ground (arith, enough);
      digest = d;
      votes =
          check_votes-All crypto c.public_keys (prepare_hash crypto a.prepare)
            (install_vote_message crypto d (prepare_hash crypto a.prepare)) a.install_votes h4;
    }
