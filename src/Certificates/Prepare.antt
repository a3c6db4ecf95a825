-- ===== src/Certificates/Prepare.antt =====
-- PrepareCertificate of prototype_final/locus/attempt_certificates.py, and EntryVote.create and verify.
use locus_v.Prelude.{Bool, true, false, not, ◌||◌, List, [], ◌∷◌, ltb}
use locus_v.Prelude.Eq.{◌==◌, nat_eq, list_eq}
use locus_v.Prelude.Lists.{length}
use locus_v.Prelude.Counts.{sorted}
use locus_v.Prelude.Ordered.{is_canonical}
use locus_v.Prelude.Results.{ok, raise, ◌>>=◌, ◌>>◌, raise_if, or_raise}
use locus_v.Certificates.Values.{
  Text, Value, string, array, object, last, member, unsupported, configuration_mismatch,
  vote_mismatch, duplicate_or_noncanonical_votes, insufficient_quorum, Checked, codes, exact_dict,
  field_of, is_literal,
}
use locus_v.Certificates.Hash.{Crypto, hash_bytes, to_hex}
use locus_v.Certificates.Config.{AuthorizerConfig, validate_config, config_digest, key_of}
use locus_v.Certificates.Entry.{
  AttemptEntry, validate_entry, entry_to_dict, entry_from_dict, entry_hash, entry_vote_message,
}
use locus_v.Certificates.Votes.{
  entry_kind, Vote, AuthorizerSigner, validate_shape, verify_signature, check_votes, authorizer_ids,
  by_authorizer, vote_items, read_votes,
}

unfoldable pub create_entry_vote : Crypto → AttemptEntry → AuthorizerSigner → Checked Vote
unfolding entry_hash entry_vote_message to_hex
create_entry_vote crypto entry signer = do
  h ← entry_hash crypto entry
  ok (record {
    authorizer_id = signer.party_id;
    subject = h;
    signature =
        to_hex (crypto.sign signer.private_key (entry_vote_message crypto entry.config_digest h));
  })

-- EntryVote.verify
unfoldable pub verify_entry_vote :
    Crypto → Vote → AttemptEntry → AuthorizerConfig → Checked (Unit {0})
unfolding entry_hash config_digest validate_config validate_entry entry_vote_message validate_shape
    verify_signature
verify_entry_vote crypto v entry config = do
  validate_entry entry
  validate_config config
  d ← config_digest crypto config
  h ← entry_hash crypto entry
  public_key ← or_raise (key_of config.public_keys v.authorizer_id) vote_mismatch
  raise_if (not (entry.config_digest == d) || not (v.subject == h)) vote_mismatch
  validate_shape v
  verify_signature crypto public_key v.signature (entry_vote_message crypto d h)

pub record PrepareCertificate : Type 0 where
  pub entry : AttemptEntry
  pub votes : List Vote

-- The entry hash is computed once: it validates the entry again, which was valid.
unfoldable pub verify_prepare : Crypto → PrepareCertificate → AuthorizerConfig → Checked (Unit {0})
unfolding entry_hash config_digest validate_config validate_entry entry_vote_message check_votes
verify_prepare crypto p config = do
  validate_config config
  validate_entry p.entry
  d ← config_digest crypto config
  raise_if
      (not (p.entry.bid == config.bid)
        || not (p.entry.epoch == config.epoch)
        || not (p.entry.config_digest == d))
      configuration_mismatch
  raise_if (not (is_canonical (authorizer_ids p.votes))) duplicate_or_noncanonical_votes
  raise_if (ltb (length (authorizer_ids p.votes)) config.quorum) insufficient_quorum
  h ← entry_hash crypto p.entry
  check_votes crypto config.public_keys h (entry_vote_message crypto d h) p.votes

unfoldable pub create_prepare :
    Crypto → AttemptEntry → List Vote → AuthorizerConfig → Checked PrepareCertificate
unfolding verify_prepare sorted
create_prepare crypto entry votes config = do
  verify_prepare crypto (record { entry = entry; votes = sorted by_authorizer votes }) config
  ok (record { entry = entry; votes = sorted by_authorizer votes })

abbrev pub prepare_to_dict : PrepareCertificate → Value
prepare_to_dict p = object (
    member "entry" (entry_to_dict p.entry) (
      member "votes" (array (vote_items entry_kind p.votes))
        (member "version" (string (codes "LOCUS-prepare-certificate-v1")) last)))

abbrev pub read_vote_array : Value → Checked (List Vote)
read_vote_array (array vs) = read_votes entry_kind vs
read_vote_array _ = raise unsupported

-- isinstance(value, list)
abbrev pub is_array : Value → Bool
is_array (array _) = true
is_array _ = false

unfoldable pub prepare_from_dict : Value → Checked PrepareCertificate
unfolding entry_from_dict
prepare_from_dict value = do
  p ← exact_dict ("entry" ∷ "votes" ∷ "version" ∷ []) value
  raise_if
      (not (is_literal (field_of p "version") "LOCUS-prepare-certificate-v1")
        || not (is_array (field_of p "votes")))
      unsupported
  entry ← entry_from_dict (field_of p "entry")
  votes ← read_vote_array (field_of p "votes")
  ok (record { entry = entry; votes = votes })

unfoldable pub prepare_hash : Crypto → PrepareCertificate → Text
unfolding hash_bytes to_hex
prepare_hash crypto p =
    to_hex
      (hash_bytes crypto "LOCUS/prepare-certificate/v1" (crypto.encode (prepare_to_dict p) ∷ []))
