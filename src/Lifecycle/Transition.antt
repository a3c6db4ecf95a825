-- ===== src/Lifecycle/Transition.antt =====
-- EpochTransition of prototype/locus/epoch_lifecycle.py.
use Prim.Native.String.{String}
use locus_v.Prelude.{ℕ, ◌+◌, Bool, true, not, ◌&&◌, ◌||◌, some, List, [], ◌∷◌, ltb}
use locus_v.Prelude.Eq.{◌==◌, nat_eq, list_eq, option_eq}
use locus_v.Prelude.Lists.{length}
use locus_v.Prelude.Results.{ok, ◌>>=◌, ◌>>◌, raise_if}
use locus_v.Certificates.Values.{
  Text, Value, integer, string, object, Members, last, member, codes, field_of, is_literal,
}
use locus_v.Certificates.Hash.{Crypto}
use locus_v.Certificates.Config.{
  PublicKeys, key_of, AuthorizerConfig, validate_config, config_digest,
}
use locus_v.Lifecycle.Values.{
  not_consecutive, count_exceeds_budget, unsupported_object, mismatch, reconfiguration, Cycled,
  from_config, cycle_integer, cycle_hex, cycle_dict, hash_text,
}

pub record EpochTransition : Type 0 where
  pub bid : Text
  pub predecessor_epoch : ℕ
  pub predecessor_config_digest : Text
  pub predecessor_backup_digest : Text
  pub predecessor_head : Text
  pub predecessor_consumed : ℕ
  pub predecessor_budget : ℕ
  pub successor_epoch : ℕ
  pub successor_config_digest : Text
  pub successor_backup_digest : Text
  pub successor_budget : ℕ
  pub policy_version : Text
  pub transition_nonce : Text

abbrev pub transition_members : EpochTransition → Members
transition_members t = member "bid" (string t.bid) (
    member "policy_version" (string t.policy_version) (
      member "predecessor_backup_digest" (string t.predecessor_backup_digest) (
        member "predecessor_budget" (integer t.predecessor_budget) (
          member "predecessor_config_digest" (string t.predecessor_config_digest) (
            member "predecessor_consumed" (integer t.predecessor_consumed) (
              member "predecessor_epoch" (integer t.predecessor_epoch) (
                member "predecessor_head" (string t.predecessor_head) (
                  member "successor_backup_digest" (string t.successor_backup_digest) (
                    member "successor_budget" (integer t.successor_budget) (
                      member "successor_config_digest" (string t.successor_config_digest) (
                        member "successor_epoch" (integer t.successor_epoch) (
                          member "transition_nonce" (string t.transition_nonce) (
                            member "type" (string (codes "REENROLL")) (
                              member "version" (string (codes "LOCUS-epoch-transition-v1"))
                                last))))))))))))))

abbrev pub transition_to_dict : EpochTransition → Value
transition_to_dict t = object (transition_members t)

abbrev pub transition_fields : List String
transition_fields =
    "bid" ∷ "policy_version" ∷ "predecessor_backup_digest" ∷ "predecessor_budget"
    ∷ "predecessor_config_digest" ∷ "predecessor_consumed" ∷ "predecessor_epoch"
    ∷ "predecessor_head" ∷ "successor_backup_digest" ∷ "successor_budget"
    ∷ "successor_config_digest" ∷ "successor_epoch" ∷ "transition_nonce" ∷ "type" ∷ "version" ∷ []

-- The tests of validate() on fields that may be of any type; `policy_version` is one text.
unfoldable pub read_transition : Members → Cycled EpochTransition
unfolding cycle_hex cycle_integer
read_transition p = do
  bid ← cycle_hex 16 (field_of p "bid")
  predecessor ← cycle_integer 1 (field_of p "predecessor_epoch")
  successor ← cycle_integer 1 (field_of p "successor_epoch")
  raise_if (not (successor == predecessor + 1)) not_consecutive
  config ← cycle_hex 32 (field_of p "predecessor_config_digest")
  backup ← cycle_hex 32 (field_of p "predecessor_backup_digest")
  head ← cycle_hex 32 (field_of p "predecessor_head")
  consumed ← cycle_integer 0 (field_of p "predecessor_consumed")
  budget ← cycle_integer 1 (field_of p "predecessor_budget")
  raise_if (ltb budget consumed) count_exceeds_budget
  next_config ← cycle_hex 32 (field_of p "successor_config_digest")
  next_backup ← cycle_hex 32 (field_of p "successor_backup_digest")
  next_budget ← cycle_integer 1 (field_of p "successor_budget")
  raise_if (not (is_literal (field_of p "policy_version") "LOCUS-epoch-lifecycle-policy-v1"))
      unsupported_object
  nonce ← cycle_hex 32 (field_of p "transition_nonce")
  ok (record {
    bid = bid;
    predecessor_epoch = predecessor;
    predecessor_config_digest = config;
    predecessor_backup_digest = backup;
    predecessor_head = head;
    predecessor_consumed = consumed;
    predecessor_budget = budget;
    successor_epoch = successor;
    successor_config_digest = next_config;
    successor_backup_digest = next_backup;
    successor_budget = next_budget;
    policy_version = codes "LOCUS-epoch-lifecycle-policy-v1";
    transition_nonce = nonce;
  })

unfoldable pub validate_transition : EpochTransition → Cycled (Unit {0})
unfolding read_transition
validate_transition t = do _ ← read_transition (transition_members t); ok tt

unfoldable pub transition_from_dict : Value → Cycled EpochTransition
unfolding cycle_dict read_transition
transition_from_dict value = do
  p ← cycle_dict transition_fields value
  raise_if
      (not (is_literal (field_of p "version") "LOCUS-epoch-transition-v1")
        || not (is_literal (field_of p "type") "REENROLL"))
      unsupported_object
  read_transition p

-- The hash without the validation before it.
unfoldable pub hash_transition : Crypto → EpochTransition → Text
unfolding hash_text
hash_transition crypto t =
    hash_text crypto "LOCUS/epoch-transition/v1" (crypto.encode (transition_to_dict t) ∷ [])

unfoldable pub transition_hash : Crypto → EpochTransition → Cycled Text
unfolding validate_transition hash_transition
transition_hash crypto t = do validate_transition t; ok (hash_transition crypto t)

abbrev pub all_keys_in : PublicKeys → PublicKeys → Bool
all_keys_in keys [] = true
all_keys_in keys (k ∷ ks) = key_of keys k.0 == some k.1 && all_keys_in keys ks

-- The equality of two dictionaries.
abbrev pub same_keys : PublicKeys → PublicKeys → Bool
same_keys a b = length a == length b && all_keys_in a b

unfoldable pub verify_configs :
    Crypto → EpochTransition → AuthorizerConfig → AuthorizerConfig → Cycled (Unit {0})
unfolding validate_transition validate_config config_digest
verify_configs crypto t predecessor successor = do
  validate_transition t
  from_config (validate_config predecessor)
  from_config (validate_config successor)
  before ← from_config (config_digest crypto predecessor)
  after ← from_config (config_digest crypto successor)
  raise_if
      (not (predecessor.bid == t.bid)
        || not (predecessor.epoch == t.predecessor_epoch)
        || not (before == t.predecessor_config_digest)
        || not (predecessor.backup_digest == t.predecessor_backup_digest)
        || not (successor.bid == t.bid)
        || not (successor.epoch == t.successor_epoch)
        || not (after == t.successor_config_digest)
        || not (successor.backup_digest == t.successor_backup_digest))
      mismatch
  raise_if
      (not (same_keys predecessor.public_keys successor.public_keys)
        || not (predecessor.quorum == successor.quorum)
        || not (predecessor.fault_bound == successor.fault_bound))
      reconfiguration
