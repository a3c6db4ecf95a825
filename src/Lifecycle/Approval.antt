-- ===== src/Lifecycle/Approval.antt =====
-- EpochApproval of prototype/locus/epoch_lifecycle.py.
use locus_v.Prelude.{ℕ, not, List, [], ◌∷◌}
use locus_v.Prelude.Eq.{◌==◌, nat_eq, list_eq}
use locus_v.Prelude.Results.{ok, ◌>>=◌, ◌>>◌, raise_if, or_raise}
use locus_v.Certificates.Values.{
  Text, Bytes, Value, Values, integer, string, object, item, Members, last, member, codes, field_of,
  is_literal,
}
use locus_v.Certificates.Hash.{Crypto, hash_bytes, from_hex, to_hex}
use locus_v.Certificates.Config.{AuthorizerConfig, key_of}
use locus_v.Certificates.Votes.{AuthorizerSigner}
use locus_v.Lifecycle.Values.{
  unsupported_object, mismatch, unknown_signer, bad_signature, Cycled, cycle_integer, cycle_hex,
  cycle_dict,
}
use locus_v.Lifecycle.Transition.{EpochTransition, transition_hash}

pub record EpochApproval : Type 0 where
  pub party_id : ℕ
  pub transition_hash : Text
  pub signature : Text

unfoldable pub approval_message : Crypto → Text → Bytes
unfolding hash_bytes from_hex
approval_message crypto hash = hash_bytes crypto "LOCUS/epoch-approval/v1" (from_hex hash ∷ [])

unfoldable pub create_approval : Crypto → EpochTransition → AuthorizerSigner → Cycled EpochApproval
unfolding transition_hash approval_message to_hex
create_approval crypto t signer = do
  hash ← transition_hash crypto t
  ok (record {
    party_id = signer.party_id;
    transition_hash = hash;
    signature = to_hex (crypto.sign signer.private_key (approval_message crypto hash));
  })

abbrev pub approval_members : EpochApproval → Members
approval_members a = member "party_id" (integer a.party_id) (
    member "signature" (string a.signature) (
      member "transition_hash" (string a.transition_hash)
        (member "version" (string (codes "LOCUS-epoch-approval-v1")) last)))

abbrev pub approval_to_dict : EpochApproval → Value
approval_to_dict a = object (approval_members a)

-- The tests of the three fields, which may be of any type.
unfoldable pub read_approval : Members → Cycled EpochApproval
unfolding cycle_hex cycle_integer
read_approval p = do
  party ← cycle_integer 1 (field_of p "party_id")
  hash ← cycle_hex 32 (field_of p "transition_hash")
  signature ← cycle_hex 64 (field_of p "signature")
  ok (record { party_id = party; transition_hash = hash; signature = signature })

unfoldable pub approval_from_dict : Value → Cycled EpochApproval
unfolding cycle_dict read_approval
approval_from_dict value = do
  p ← cycle_dict ("party_id" ∷ "signature" ∷ "transition_hash" ∷ "version" ∷ []) value
  raise_if (not (is_literal (field_of p "version") "LOCUS-epoch-approval-v1")) unsupported_object
  read_approval p

-- _verify_signature
unfoldable pub verify_lifecycle_signature : Crypto → Text → Text → Bytes → Cycled (Unit {0})
unfolding from_hex
verify_lifecycle_signature crypto public_key signature message =
    raise_if (not (crypto.verifies (from_hex public_key) (from_hex signature) message))
      bad_signature

unfoldable pub verify_approval :
    Crypto → EpochApproval → EpochTransition → AuthorizerConfig → Cycled (Unit {0})
unfolding read_approval transition_hash verify_lifecycle_signature approval_message
verify_approval crypto a t config = do
  _ ← read_approval (approval_members a)
  hash ← transition_hash crypto t
  raise_if (not (a.transition_hash == hash)) mismatch
  public_key ← or_raise (key_of config.public_keys a.party_id) unknown_signer
  verify_lifecycle_signature crypto public_key a.signature
      (approval_message crypto a.transition_hash)

abbrev pub approval_items : List EpochApproval → Values
approval_items [] = Values.empty
approval_items (a ∷ rest) = item (approval_to_dict a) (approval_items rest)

abbrev pub read_approvals : Values → Cycled (List EpochApproval)
read_approvals Values.empty = ok []
read_approvals (item v vs) = do
  first ← approval_from_dict v
  rest ← read_approvals vs
  ok (first ∷ rest)
