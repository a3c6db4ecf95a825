-- ===== src/Lifecycle/Package.antt =====
-- RuntimeEpochPackage of prototype/locus/epoch_lifecycle.py.
use Prim.Native.String.{String}
use locus_v.Prelude.{ℕ, Bool, true, false, not, ◌||◌, Option, none, some, List, [], ◌∷◌, ltb}
use locus_v.Prelude.Eq.{◌==◌, nat_eq, list_eq, bool_eq}
use locus_v.Prelude.Results.{ok, ◌>>=◌, ◌>>◌, raise_if}
use locus_v.Certificates.Values.{
  Text, Bytes, Value, boolean, integer, string, object, Members, last, member, codes, field_of,
  is_literal,
}
use locus_v.Certificates.Hash.{Crypto}
use locus_v.Certificates.Config.{AuthorizerConfig, validate_config, config_digest, key_of}
use locus_v.Lifecycle.Values.{
  malformed, unsupported_object, mismatch, incomplete_package, Cycled, from_config, cycle_integer,
  cycle_hex, cycle_dict, cycle_boolean, hash_text,
}
use locus_v.Lifecycle.Transition.{EpochTransition, validate_transition, transition_hash}

pub record RuntimeEpochPackage : Type 0 where
  pub bid : Text
  pub epoch : ℕ
  pub party_id : ℕ
  pub transition_hash : Text
  pub config_digest : Text
  pub backup_digest : Text
  pub native_enabled : Bool
  pub parameters_hash : Text
  pub party_state_hash : Text

abbrev pub package_members : RuntimeEpochPackage → Members
package_members r = member "backup_digest" (string r.backup_digest) (
    member "bid" (string r.bid) (
      member "config_digest" (string r.config_digest) (
        member "epoch" (integer r.epoch) (
          member "native_enabled" (boolean r.native_enabled) (
            member "parameters_hash" (string r.parameters_hash) (
              member "party_id" (integer r.party_id) (
                member "party_state_hash" (string r.party_state_hash) (
                  member "transition_hash" (string r.transition_hash) (
                    member "version" (string (codes "LOCUS-runtime-epoch-package-v1")) last)))))))))

abbrev pub package_to_dict : RuntimeEpochPackage → Value
package_to_dict r = object (package_members r)

abbrev pub package_fields : List String
package_fields =
    "backup_digest" ∷ "bid" ∷ "config_digest" ∷ "epoch" ∷ "native_enabled" ∷ "parameters_hash"
    ∷ "party_id" ∷ "party_state_hash" ∷ "transition_hash" ∷ "version" ∷ []

-- The tests of validate() on fields that may be of any type.
unfoldable pub read_package : Members → Cycled RuntimeEpochPackage
unfolding cycle_hex cycle_integer cycle_boolean
read_package p = do
  bid ← cycle_hex 16 (field_of p "bid")
  epoch ← cycle_integer 1 (field_of p "epoch")
  party ← cycle_integer 1 (field_of p "party_id")
  raise_if (ltb 255 party) malformed
  transition ← cycle_hex 32 (field_of p "transition_hash")
  config ← cycle_hex 32 (field_of p "config_digest")
  backup ← cycle_hex 32 (field_of p "backup_digest")
  native ← cycle_boolean (field_of p "native_enabled")
  parameters ← cycle_hex 32 (field_of p "parameters_hash")
  state ← cycle_hex 32 (field_of p "party_state_hash")
  ok (record {
    bid = bid;
    epoch = epoch;
    party_id = party;
    transition_hash = transition;
    config_digest = config;
    backup_digest = backup;
    native_enabled = native;
    parameters_hash = parameters;
    party_state_hash = state;
  })

unfoldable pub validate_package : RuntimeEpochPackage → Cycled (Unit {0})
unfolding read_package
validate_package r = do _ ← read_package (package_members r); ok tt

unfoldable pub package_from_dict : Value → Cycled RuntimeEpochPackage
unfolding cycle_dict read_package
package_from_dict value = do
  p ← cycle_dict package_fields value
  raise_if (not (is_literal (field_of p "version") "LOCUS-runtime-epoch-package-v1"))
      unsupported_object
  read_package p

unfoldable pub package_digest : Crypto → RuntimeEpochPackage → Cycled Text
unfolding validate_package hash_text
package_digest crypto r = do
  validate_package r
  ok (hash_text crypto "LOCUS/runtime-epoch-package/v1" (crypto.encode (package_to_dict r) ∷ []))

abbrev pub is_configured : Option Text → Bool
is_configured none = false
is_configured (some key) = true

unfoldable pub verify_successor :
    Crypto → RuntimeEpochPackage → EpochTransition → AuthorizerConfig → Cycled (Unit {0})
unfolding validate_package validate_transition transition_hash validate_config config_digest
verify_successor crypto r t config = do
  validate_package r
  validate_transition t
  from_config (validate_config config)
  hash ← transition_hash crypto t
  digest ← from_config (config_digest crypto config)
  raise_if
      (not (r.bid == t.bid)
        || not (r.epoch == t.successor_epoch)
        || not (r.transition_hash == hash)
        || not (r.config_digest == t.successor_config_digest)
        || not (r.config_digest == digest)
        || not (r.backup_digest == t.successor_backup_digest)
        || not (r.backup_digest == config.backup_digest)
        || not (is_configured (key_of config.public_keys r.party_id)))
      mismatch

-- `b"" if value is None else value`
abbrev pub or_no_bytes : Option Bytes → Bytes
or_no_bytes none = []
or_no_bytes (some bytes) = bytes

abbrev pub is_given : Option Bytes → Bool
is_given none = false
is_given (some bytes) = true

unfoldable pub hash_parameters : Crypto → Option Bytes → Text
unfolding hash_text
hash_parameters crypto parameters =
    hash_text crypto "LOCUS/runtime-public-parameters/v1" (or_no_bytes parameters ∷ [])

unfoldable pub hash_party_state : Crypto → Option Bytes → Text
unfolding hash_text
hash_party_state crypto party_state =
    hash_text crypto "LOCUS/runtime-party-state/v1" (or_no_bytes party_state ∷ [])

unfoldable pub create_package :
    Crypto
    → EpochTransition
    → AuthorizerConfig
    → ℕ
    → Option Bytes
    → Option Bytes
    → Cycled RuntimeEpochPackage
unfolding transition_hash config_digest hash_parameters hash_party_state verify_successor
create_package crypto t config party_id parameters party_state = do
  raise_if (not (is_given parameters == is_given party_state)) incomplete_package
  hash ← transition_hash crypto t
  digest ← from_config (config_digest crypto config)
  let descriptor : RuntimeEpochPackage = record {
    bid = t.bid;
    epoch = t.successor_epoch;
    party_id = party_id;
    transition_hash = hash;
    config_digest = digest;
    backup_digest = config.backup_digest;
    native_enabled = is_given parameters;
    parameters_hash = hash_parameters crypto parameters;
    party_state_hash = hash_party_state crypto party_state;
  }
  verify_successor crypto descriptor t config
  ok descriptor
