-- ===== src/Certificates/Authorization.antt =====
-- AuthorizationCertificate of prototype_final/locus/attempt_certificates.py, and InstallVote.create and verify.
use locus_v.Prelude.{not, ◌||◌, List, [], ◌∷◌, ltb}
use locus_v.Prelude.Eq.{◌==◌, nat_eq, list_eq}
use locus_v.Prelude.Lists.{length}
use locus_v.Prelude.Counts.{sorted}
use locus_v.Prelude.Ordered.{is_canonical}
use locus_v.Prelude.Results.{ok, raise, ◌>>=◌, ◌>>◌, raise_if, or_raise}
use locus_v.Certificates.Values.{
  Text, Value, string, array, object, last, member, unsupported, vote_mismatch,
  duplicate_or_noncanonical_votes, insufficient_quorum, Checked, codes, exact_dict, field_of,
  is_literal,
}
use locus_v.Certificates.Hash.{Crypto, hash_bytes, to_hex}
use locus_v.Certificates.Config.{AuthorizerConfig, config_digest, key_of}
use locus_v.Certificates.Entry.{install_vote_message}
use locus_v.Certificates.Votes.{
  install_kind, Vote, AuthorizerSigner, validate_shape, verify_signature, check_votes,
  authorizer_ids, by_authorizer, vote_items, read_votes,
}
use locus_v.Certificates.Prepare.{
  PrepareCertificate, verify_prepare, prepare_to_dict, prepare_from_dict, prepare_hash, is_array,
}

unfoldable pub create_install_vote : Crypto → PrepareCertificate → AuthorizerSigner → Vote
unfolding prepare_hash install_vote_message to_hex
create_install_vote crypto p signer =
    let h = prepare_hash crypto p in
    record {
      authorizer_id = signer.party_id;
      subject = h;
      signature =
          to_hex
            (crypto.sign signer.private_key (install_vote_message crypto p.entry.config_digest h));
    }

-- InstallVote.verify
unfoldable pub verify_install_vote :
    Crypto → Vote → PrepareCertificate → AuthorizerConfig → Checked (Unit {0})
unfolding verify_prepare config_digest prepare_hash install_vote_message validate_shape
    verify_signature
verify_install_vote crypto v p config = do
  verify_prepare crypto p config
  public_key ← or_raise (key_of config.public_keys v.authorizer_id) vote_mismatch
  raise_if (not (v.subject == prepare_hash crypto p)) vote_mismatch
  validate_shape v
  d ← config_digest crypto config
  verify_signature crypto public_key v.signature
      (install_vote_message crypto d (prepare_hash crypto p))

pub record AuthorizationCertificate : Type 0 where
  pub prepare : PrepareCertificate
  pub install_votes : List Vote

unfoldable pub verify_authorization :
    Crypto → AuthorizationCertificate → AuthorizerConfig → Checked (Unit {0})
unfolding verify_prepare config_digest prepare_hash install_vote_message check_votes
verify_authorization crypto a config = do
  verify_prepare crypto a.prepare config
  raise_if (not (is_canonical (authorizer_ids a.install_votes))) duplicate_or_noncanonical_votes
  raise_if (ltb (length (authorizer_ids a.install_votes)) config.quorum) insufficient_quorum
  d ← config_digest crypto config
  check_votes crypto config.public_keys (prepare_hash crypto a.prepare)
      (install_vote_message crypto d (prepare_hash crypto a.prepare)) a.install_votes

unfoldable pub create_authorization :
    Crypto → PrepareCertificate → List Vote → AuthorizerConfig → Checked AuthorizationCertificate
unfolding verify_authorization sorted
create_authorization crypto p votes config = do
  verify_authorization crypto (record { prepare = p; install_votes = sorted by_authorizer votes })
      config
  ok (record { prepare = p; install_votes = sorted by_authorizer votes })

abbrev pub authorization_to_dict : AuthorizationCertificate → Value
authorization_to_dict a = object (
    member "install_votes" (array (vote_items install_kind a.install_votes)) (
      member "prepare" (prepare_to_dict a.prepare)
        (member "version" (string (codes "LOCUS-authorization-certificate-v1")) last)))

abbrev pub read_install_votes : Value → Checked (List Vote)
read_install_votes (array vs) = read_votes install_kind vs
read_install_votes _ = raise unsupported

unfoldable pub authorization_from_dict : Value → Checked AuthorizationCertificate
unfolding prepare_from_dict
authorization_from_dict value = do
  p ← exact_dict ("install_votes" ∷ "prepare" ∷ "version" ∷ []) value
  raise_if
      (not (is_literal (field_of p "version") "LOCUS-authorization-certificate-v1")
        || not (is_array (field_of p "install_votes")))
      unsupported
  prepare ← prepare_from_dict (field_of p "prepare")
  install_votes ← read_install_votes (field_of p "install_votes")
  ok (record { prepare = prepare; install_votes = install_votes })

unfoldable pub authorization_hash : Crypto → AuthorizationCertificate → Text
unfolding hash_bytes to_hex
authorization_hash crypto a = to_hex (
    hash_bytes crypto "LOCUS/authorization-certificate/v1"
      (crypto.encode (authorization_to_dict a) ∷ []))
