-- ===== src/Certificates/Entry.antt =====
-- AttemptEntry of prototype_final/locus/attempt_certificates.py and the messages that are signed.
use Prim.Native.String.{String}
use locus_v.Prelude.{ℕ, not, ◌||◌, List, [], ◌∷◌, ltb}
use locus_v.Prelude.Results.{ok, ◌>>=◌, ◌>>◌, raise_if}
use locus_v.Certificates.Values.{
  Text, Bytes, Value, integer, string, object, last, member, unsupported, budget_exhausted, Checked,
  codes, get_integer, get_hex, exact_dict, field_of, is_literal,
}
use locus_v.Certificates.Hash.{Crypto, hash_bytes, to_hex, from_hex}

pub record AttemptEntry : Type 0 where
  pub bid : Text
  pub epoch : ℕ
  pub config_digest : Text
  pub log_index : ℕ
  pub previous_head : Text
  pub sid : Text
  pub request_digest : Text
  pub tpass_request_hash : Text
  pub resulting_consumed : ℕ
  pub effective_budget : ℕ

-- AttemptEntry(...).validate(), with fields that may be of any type.
unfoldable pub build_entry :
    Value
    → Value
    → Value
    → Value
    → Value
    → Value
    → Value
    → Value
    → Value
    → Value
    → Checked AttemptEntry
build_entry bid epoch config_digest log_index previous_head sid request_digest tpass_request_hash
      resulting_consumed effective_budget =
    do
      b ← get_hex 16 bid
      e ← get_integer 1 epoch
      c ← get_hex 32 config_digest
      i ← get_integer 1 log_index
      h ← get_hex 32 previous_head
      s ← get_hex 32 sid
      r ← get_hex 32 request_digest
      t ← get_hex 32 tpass_request_hash
      n ← get_integer 1 resulting_consumed
      m ← get_integer 1 effective_budget
      raise_if (ltb m n) budget_exhausted
      ok (record {
        bid = b;
        epoch = e;
        config_digest = c;
        log_index = i;
        previous_head = h;
        sid = s;
        request_digest = r;
        tpass_request_hash = t;
        resulting_consumed = n;
        effective_budget = m;
      })

unfoldable pub validate_entry : AttemptEntry → Checked (Unit {0})
unfolding build_entry
validate_entry e = do
  _ ←
      build_entry (string e.bid) (integer e.epoch) (string e.config_digest) (integer e.log_index)
        (string e.previous_head) (string e.sid) (string e.request_digest)
        (string e.tpass_request_hash) (integer e.resulting_consumed) (integer e.effective_budget)
  ok tt

abbrev pub entry_to_dict : AttemptEntry → Value
entry_to_dict e = object (
    member "bid" (string e.bid) (
      member "config_digest" (string e.config_digest) (
        member "effective_budget" (integer e.effective_budget) (
          member "epoch" (integer e.epoch) (
            member "log_index" (integer e.log_index) (
              member "previous_head" (string e.previous_head) (
                member "request_digest" (string e.request_digest) (
                  member "resulting_consumed" (integer e.resulting_consumed) (
                    member "sid" (string e.sid) (
                      member "tpass_request_hash" (string e.tpass_request_hash) (
                        member "type" (string (codes "ATTEMPT")) (
                          member "version" (string (codes "LOCUS-attempt-entry-v1"))
                            last))))))))))))

abbrev pub entry_fields : List String
entry_fields =
    "bid" ∷ "config_digest" ∷ "effective_budget" ∷ "epoch" ∷ "log_index" ∷ "previous_head"
    ∷ "request_digest" ∷ "resulting_consumed" ∷ "sid" ∷ "tpass_request_hash" ∷ "type" ∷ "version"
    ∷ []

unfoldable pub entry_from_dict : Value → Checked AttemptEntry
unfolding build_entry
entry_from_dict value = do
  p ← exact_dict entry_fields value
  raise_if
      (not (is_literal (field_of p "version") "LOCUS-attempt-entry-v1")
        || not (is_literal (field_of p "type") "ATTEMPT"))
      unsupported
  build_entry (field_of p "bid") (field_of p "epoch") (field_of p "config_digest")
      (field_of p "log_index") (field_of p "previous_head") (field_of p "sid")
      (field_of p "request_digest") (field_of p "tpass_request_hash")
      (field_of p "resulting_consumed") (field_of p "effective_budget")

-- The hash without the validation before it.
abbrev pub hash_entry : Crypto → AttemptEntry → Text
hash_entry crypto e =
    to_hex (hash_bytes crypto "LOCUS/attempt-entry/v1" (crypto.encode (entry_to_dict e) ∷ []))

unfoldable pub entry_hash : Crypto → AttemptEntry → Checked Text
unfolding validate_entry hash_bytes to_hex
entry_hash crypto e = do validate_entry e; ok (hash_entry crypto e)

unfoldable pub entry_vote_message : Crypto → Text → Text → Bytes
unfolding hash_bytes from_hex
entry_vote_message crypto config_digest entry_hash =
    hash_bytes crypto "LOCUS/attempt-vote/v1" (from_hex config_digest ∷ from_hex entry_hash ∷ [])

unfoldable pub install_vote_message : Crypto → Text → Text → Bytes
unfolding hash_bytes from_hex
install_vote_message crypto config_digest prepare_hash =
    hash_bytes crypto "LOCUS/attempt-install/v1"
      (from_hex config_digest ∷ from_hex prepare_hash ∷ [])
