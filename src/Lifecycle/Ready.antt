-- ===== src/Lifecycle/Ready.antt =====
-- EpochReady of prototype/locus/epoch_lifecycle.py.
use Prim.Native.String.{String}
use locus_v.Prelude.{ℕ, not, ◌||◌, List, [], ◌∷◌, ltb}
use locus_v.Prelude.Eq.{◌==◌, nat_eq, list_eq}
use locus_v.Prelude.Results.{ok, ◌>>=◌, ◌>>◌, raise_if, or_raise}
use locus_v.Certificates.Values.{
  Text, Bytes, Value, Values, integer, string, object, item, Members, last, member, codes, field_of,
  is_literal,
}
use locus_v.Certificates.Hash.{Crypto, hash_bytes, from_hex, to_hex}
use locus_v.Certificates.Config.{AuthorizerConfig, key_of}
use locus_v.Certificates.Votes.{AuthorizerSigner}
use locus_v.Lifecycle.Values.{
  unsupported_object, mismatch, unknown_signer, overflow, Cycled, cycle_integer, cycle_hex,
  cycle_dict,
}
use locus_v.Lifecycle.Transition.{EpochTransition, transition_hash}
use locus_v.Lifecycle.Approval.{verify_lifecycle_signature}
use locus_v.Lifecycle.Package.{RuntimeEpochPackage, package_digest}

pub record EpochReady : Type 0 where
  pub party_id : ℕ
  pub transition_hash : Text
  pub runtime_package_digest : Text
  pub signature : Text

-- party_id.to_bytes(1, "big") raises OverflowError on a number of more than one byte.
unfoldable pub ready_message : Crypto → Text → ℕ → Text → Cycled Bytes
unfolding hash_bytes from_hex
ready_message crypto hash party_id digest = do
  raise_if (ltb 255 party_id) overflow
  ok (
      hash_bytes crypto "LOCUS/epoch-ready/v2"
        (from_hex hash ∷ (party_id ∷ []) ∷ from_hex digest ∷ []))

unfoldable pub create_ready :
    Crypto → EpochTransition → RuntimeEpochPackage → AuthorizerSigner → Cycled EpochReady
unfolding transition_hash package_digest ready_message to_hex
create_ready crypto t runtime_package signer = do
  hash ← transition_hash crypto t
  raise_if
      (not (runtime_package.party_id == signer.party_id)
        || not (runtime_package.transition_hash == hash))
      mismatch
  digest ← package_digest crypto runtime_package
  message ← ready_message crypto hash signer.party_id digest
  ok (record {
    party_id = signer.party_id;
    transition_hash = hash;
    runtime_package_digest = digest;
    signature = to_hex (crypto.sign signer.private_key message);
  })

abbrev pub ready_members : EpochReady → Members
ready_members r = member "party_id" (integer r.party_id) (
    member "runtime_package_digest" (string r.runtime_package_digest) (
      member "signature" (string r.signature) (
        member "transition_hash" (string r.transition_hash)
          (member "version" (string (codes "LOCUS-epoch-ready-v2")) last))))

abbrev pub ready_to_dict : EpochReady → Value
ready_to_dict r = object (ready_members r)

abbrev pub ready_fields : List String
ready_fields =
    "party_id" ∷ "runtime_package_digest" ∷ "signature" ∷ "transition_hash" ∷ "version" ∷ []

-- The tests of the four fields, which may be of any type.
unfoldable pub read_ready : Members → Cycled EpochReady
unfolding cycle_hex cycle_integer
read_ready p = do
  party ← cycle_integer 1 (field_of p "party_id")
  hash ← cycle_hex 32 (field_of p "transition_hash")
  digest ← cycle_hex 32 (field_of p "runtime_package_digest")
  signature ← cycle_hex 64 (field_of p "signature")
  ok (record {
    party_id = party;
    transition_hash = hash;
    runtime_package_digest = digest;
    signature = signature;
  })

unfoldable pub ready_from_dict : Value → Cycled EpochReady
unfolding cycle_dict read_ready
ready_from_dict value = do
  p ← cycle_dict ready_fields value
  raise_if (not (is_literal (field_of p "version") "LOCUS-epoch-ready-v2")) unsupported_object
  read_ready p

unfoldable pub verify_ready :
    Crypto → EpochReady → EpochTransition → AuthorizerConfig → Cycled (Unit {0})
unfolding read_ready transition_hash verify_lifecycle_signature ready_message
verify_ready crypto r t config = do
  _ ← read_ready (ready_members r)
  hash ← transition_hash crypto t
  raise_if (not (r.transition_hash == hash)) mismatch
  public_key ← or_raise (key_of config.public_keys r.party_id) unknown_signer
  message ← ready_message crypto r.transition_hash r.party_id r.runtime_package_digest
  verify_lifecycle_signature crypto public_key r.signature message

abbrev pub ready_items : List EpochReady → Values
ready_items [] = Values.empty
ready_items (r ∷ rest) = item (ready_to_dict r) (ready_items rest)

abbrev pub read_readiness : Values → Cycled (List EpochReady)
read_readiness Values.empty = ok []
read_readiness (item v vs) = do
  first ← ready_from_dict v
  rest ← read_readiness vs
  ok (first ∷ rest)
