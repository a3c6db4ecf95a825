-- ===== src/Certificates/Config.antt =====
-- AuthorizerConfig of prototype_final/locus/attempt_certificates.py.
use Prim.Native.String.{String}
use locus_v.Prelude.{
  ℕ, ◌+◌, ◌*◌, Bool, false, not, ◌||◌, Option, none, some, List, [], ◌∷◌, map, ltb, leb,
  if◌then◌else◌,
}
use locus_v.Prelude.Eq.{◌==◌, nat_eq, list_eq}
use locus_v.Prelude.Lists.{length, last?}
use locus_v.Prelude.Counts.{sorted}
use locus_v.Prelude.Results.{ok, raise, ◌>>=◌, ◌>>◌, raise_if}
use locus_v.Certificates.Values.{
  Text, Value, integer, string, array, object, Values, item, last, member, invalid, unsupported,
  noncanonical_identifiers, invalid_threshold, unsafe_intersection, Checked, codes, get_integer,
  get_hex, exact_dict, field_of, is_literal,
}
use locus_v.Certificates.Hash.{Crypto, hash_bytes, to_hex}

-- The dictionary public_keys lists its items.
abbrev pub PublicKeys : Type 0
PublicKeys = List (ℕ × Text)

pub record AuthorizerConfig : Type 0 where
  pub bid : Text
  pub epoch : ℕ
  pub backup_digest : Text
  pub fault_bound : ℕ
  pub quorum : ℕ
  pub public_keys : PublicKeys

-- public_keys.get(party_id)
abbrev pub key_of : PublicKeys → ℕ → Option Text
key_of [] id = none
key_of (k ∷ ks) id = let rest = key_of ks id in if k.0 == id then some k.1 else rest

abbrev pub party_ids : PublicKeys → List ℕ
party_ids ks = map (λ k. k.0) ks

-- party_ids[0] < 1 or party_ids[-1] > 255, of the sorted identifiers
abbrev pub first_below_one : List ℕ → Bool
first_below_one [] = false
first_below_one (id ∷ ids) = ltb id 1

abbrev pub last_above : Option ℕ → Bool
last_above none = false
last_above (some id) = ltb 255 id

abbrev pub has_invalid_id : List ℕ → Bool
has_invalid_id ids = first_below_one ids || last_above (last? ids)

abbrev pub check_keys : PublicKeys → Checked (Unit {0})
check_keys [] = ok tt
check_keys (k ∷ ks) = do _ ← get_hex 32 (string k.1); check_keys ks

-- isinstance(fault_bound, int) and fault_bound >= 0
abbrev pub get_fault_bound : Value → Checked ℕ
get_fault_bound (integer n) = ok n
get_fault_bound _ = raise invalid

-- AuthorizerConfig(...).validate(), with fields that may be of any type.
unfoldable pub build_config :
    Value → Value → Value → Value → Value → PublicKeys → Checked AuthorizerConfig
build_config bid epoch backup_digest fault_bound quorum public_keys = do
  b ← get_hex 16 bid
  e ← get_integer 1 epoch
  d ← get_hex 32 backup_digest
  f ← get_fault_bound fault_bound
  q ← get_integer 1 quorum
  raise_if (length public_keys == 0) invalid
  raise_if (has_invalid_id (sorted leb (party_ids public_keys))) invalid
  check_keys public_keys
  raise_if (leb (length public_keys) f || ltb (length public_keys) q) invalid_threshold
  raise_if (leb (2 * q) (length public_keys + f)) unsafe_intersection
  ok (record {
    bid = b;
    epoch = e;
    backup_digest = d;
    fault_bound = f;
    quorum = q;
    public_keys = public_keys;
  })

unfoldable pub validate_config : AuthorizerConfig → Checked (Unit {0})
unfolding build_config
validate_config c = do
  _ ←
      build_config (string c.bid) (integer c.epoch) (string c.backup_digest) (integer c.fault_bound)
        (integer c.quorum) c.public_keys
  ok tt

abbrev pub key_item : ℕ × Text → Value
key_item k = object (member "party_id" (integer k.0) (member "public_key" (string k.1) last))

abbrev pub key_items : PublicKeys → Values
key_items [] = Values.empty
key_items (k ∷ ks) = item (key_item k) (key_items ks)

abbrev pub by_id : ℕ × Text → ℕ × Text → Bool
by_id a b = leb a.0 b.0

abbrev pub config_to_dict : AuthorizerConfig → Value
config_to_dict c = object (
    member "bid" (string c.bid) (
      member "epoch" (integer c.epoch) (
        member "backup_digest" (string c.backup_digest) (
          member "fault_bound" (integer c.fault_bound) (
            member "public_keys" (array (key_items (sorted by_id c.public_keys))) (
              member "quorum" (integer c.quorum)
                (member "version" (string (codes "LOCUS-attempt-config-v2")) last)))))))

unfoldable pub config_digest : Crypto → AuthorizerConfig → Checked Text
unfolding validate_config hash_bytes to_hex sorted
config_digest crypto c = do
  validate_config c
  ok (to_hex (hash_bytes crypto "LOCUS/attempt-config/v2" (crypto.encode (config_to_dict c) ∷ [])))

abbrev pub key_fields : List String
key_fields = "party_id" ∷ "public_key" ∷ []

-- The loop over the key items, with previous_party_id.
unfoldable pub read_keys : ℕ → Values → Checked PublicKeys
read_keys previous Values.empty = ok []
read_keys previous (item v vs) = do
  key ← exact_dict key_fields v
  party_id ← get_integer 1 (field_of key "party_id")
  raise_if (ltb 255 party_id || leb party_id previous) noncanonical_identifiers
  public_key ← get_hex 32 (field_of key "public_key")
  rest ← read_keys party_id vs
  ok ((party_id, public_key) ∷ rest)

abbrev pub config_fields : List String
config_fields =
    "bid" ∷ "epoch" ∷ "backup_digest" ∷ "fault_bound" ∷ "public_keys" ∷ "quorum" ∷ "version" ∷ []

abbrev pub read_key_list : Value → Checked PublicKeys
read_key_list (array vs) = read_keys 0 vs
read_key_list _ = raise unsupported

unfoldable pub config_from_dict : Value → Checked AuthorizerConfig
unfolding build_config read_keys
config_from_dict value = do
  parsed ← exact_dict config_fields value
  raise_if (not (is_literal (field_of parsed "version") "LOCUS-attempt-config-v2")) unsupported
  public_keys ← read_key_list (field_of parsed "public_keys")
  build_config (field_of parsed "bid") (field_of parsed "epoch") (field_of parsed "backup_digest")
      (field_of parsed "fault_bound") (field_of parsed "quorum") public_keys
