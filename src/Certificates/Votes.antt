-- ===== src/Certificates/Votes.antt =====
-- EntryVote, InstallVote and FreshnessVote of prototype_final/locus/attempt_certificates.py: the three
-- classes have one shape, and differ in the key of their subject and in their version.
use Prim.Native.String.{String}
use locus_v.Prelude.{ℕ, Bool, not, Option, none, some, List, [], ◌∷◌, map, ltb, leb}
use locus_v.Prelude.Eq.{◌==◌, nat_eq, list_eq}
use locus_v.Prelude.Results.{ok, raise, ◌>>=◌, ◌>>◌, raise_if}
use locus_v.Certificates.Values.{
  Text, Bytes, Value, integer, string, object, Values, item, last, member, invalid, unsupported,
  vote_mismatch, invalid_signature, Checked, codes, get_integer, get_hex, exact_dict, field_of,
  is_literal,
}
use locus_v.Certificates.Hash.{Crypto, from_hex, to_hex}
use locus_v.Certificates.Config.{PublicKeys, key_of}

pub data VoteKind : Type 0 where
  entry_kind install_kind freshness_kind : VoteKind

-- The key of entry_hash, prepare_hash or freshness_request_hash.
abbrev pub subject_key : VoteKind → String
subject_key entry_kind = "entry_hash"
subject_key install_kind = "prepare_hash"
subject_key freshness_kind = "freshness_request_hash"

abbrev pub vote_version : VoteKind → String
vote_version entry_kind = "LOCUS-entry-vote-v1"
vote_version install_kind = "LOCUS-install-vote-v1"
vote_version freshness_kind = "LOCUS-response-freshness-vote-v1"

pub record Vote : Type 0 where
  pub authorizer_id : ℕ
  pub subject : Text
  pub signature : Text

-- The vote and its validate_shape(), with fields that may be of any type.
unfoldable pub build_vote : Value → Value → Value → Checked Vote
build_vote authorizer_id subject signature = do
  party_id ← get_integer 1 authorizer_id
  raise_if (ltb 255 party_id) invalid
  h ← get_hex 32 subject
  s ← get_hex 64 signature
  ok (record { authorizer_id = party_id; subject = h; signature = s })

unfoldable pub validate_shape : Vote → Checked (Unit {0})
unfolding build_vote
validate_shape v = do
  _ ← build_vote (integer v.authorizer_id) (string v.subject) (string v.signature)
  ok tt

abbrev pub vote_to_dict : VoteKind → Vote → Value
vote_to_dict k v = object (
    member "authorizer_id" (integer v.authorizer_id) (
      member (subject_key k) (string v.subject) (
        member "signature" (string v.signature)
          (member "version" (string (codes (vote_version k))) last))))

unfoldable pub vote_from_dict : VoteKind → Value → Checked Vote
unfolding build_vote
vote_from_dict k value = do
  p ← exact_dict ("authorizer_id" ∷ subject_key k ∷ "signature" ∷ "version" ∷ []) value
  raise_if (not (is_literal (field_of p "version") (vote_version k))) unsupported
  build_vote (field_of p "authorizer_id") (field_of p (subject_key k)) (field_of p "signature")

-- The signer of a party: party_id and _private_key.
pub record AuthorizerSigner : Type 0 where
  pub party_id : ℕ
  pub private_key : Bytes

unfoldable pub public_key_hex : Crypto → AuthorizerSigner → Text
unfolding to_hex
public_key_hex crypto signer = to_hex (crypto.public_key signer.private_key)

unfoldable pub verify_signature : Crypto → Text → Text → Bytes → Checked (Unit {0})
unfolding from_hex
verify_signature crypto public_key signature message =
    raise_if (not (crypto.verifies (from_hex public_key) (from_hex signature) message))
      invalid_signature

-- What a certificate asks of one vote, whose party has the key `key`.
abbrev pub check_known : Crypto → Option Text → Text → Bytes → Vote → Checked (Unit {0})
check_known crypto none subject message v = raise vote_mismatch
check_known crypto (some key) subject message v = do
  raise_if (not (v.subject == subject)) vote_mismatch
  verify_signature crypto key v.signature message

-- The loop of `verify` over the votes for `subject`.
unfoldable pub check_votes : Crypto → PublicKeys → Text → Bytes → List Vote → Checked (Unit {0})
unfolding validate_shape verify_signature
check_votes crypto keys subject message [] = ok tt
check_votes crypto keys subject message (v ∷ vs) = do
  validate_shape v
  check_known crypto (key_of keys v.authorizer_id) subject message v
  check_votes crypto keys subject message vs

abbrev pub authorizer_ids : List Vote → List ℕ
authorizer_ids vs = map (λ v. v.authorizer_id) vs

abbrev pub by_authorizer : Vote → Vote → Bool
by_authorizer a b = leb a.authorizer_id b.authorizer_id

abbrev pub vote_items : VoteKind → List Vote → Values
vote_items k [] = Values.empty
vote_items k (v ∷ vs) = item (vote_to_dict k v) (vote_items k vs)

abbrev pub read_votes : VoteKind → Values → Checked (List Vote)
read_votes k Values.empty = ok []
read_votes k (item v vs) = do first ← vote_from_dict k v; rest ← read_votes k vs; ok (first ∷ rest)
