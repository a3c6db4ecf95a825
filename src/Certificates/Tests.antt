-- ===== src/Certificates/Tests.antt =====
-- The theorems on the certificates of attempt_certificates.py at concrete values.
use locus_v.Prelude.Counts.{sorted}
use locus_v.Prelude.{ℕ, ◌≡◌, refl, arith, true, not, List, [], ◌∷◌}
use locus_v.Prelude.Eq.{◌==◌, nat_eq}
use locus_v.Prelude.Lists.{In}
use locus_v.Prelude.Results.{ok}
use locus_v.Certificates.Values.{Bytes, get_hex, get_integer}
use locus_v.Certificates.Hash.{flatten_injective}
use locus_v.Certificates.Entry.{validate_entry, entry_to_dict, entry_from_dict}
use locus_v.Certificates.Votes.{authorizer_ids}
use locus_v.Certificates.Authorization.{authorization_to_dict, authorization_from_dict}
use locus_v.Certificates.RoundTrip.{
  entry_from_dict-entry_to_dict, authorization_from_dict-authorization_to_dict,
}
use locus_v.Certificates.Intersection.{quorum_intersection}
use locus_v.Certificates.Samples.{
  toy, config, digest, entry, first_prepare, second_prepare, first_verified, second_verified,
  authorization, authorization_verified,
}

abbrev parts : List Bytes
parts = (7 ∷ 8 ∷ []) ∷ [] ∷ (9 ∷ []) ∷ []

flatten_injective_example : parts ≡ parts
flatten_injective_example =
    flatten_injective parts parts (omega arith, (omega arith, (omega arith, tt)))
      (omega arith, (omega arith, (omega arith, tt))) refl

entry_valid : validate_entry entry ≡ ok tt
unfolding validate_entry get_hex get_integer digest sorted
entry_valid = refl

entry_from_dict-entry_to_dict_example : entry_from_dict (entry_to_dict entry) ≡ ok entry
entry_from_dict-entry_to_dict_example = entry_from_dict-entry_to_dict entry entry_valid

authorization_from_dict-authorization_to_dict_example :
    authorization_from_dict (authorization_to_dict authorization) ≡ ok authorization
authorization_from_dict-authorization_to_dict_example =
    authorization_from_dict-authorization_to_dict toy authorization config authorization_verified

quorum_intersection_example :
    (id : ℕ) × (not (id == 4) ≡ true)
    × In id (authorizer_ids first_prepare.votes)
    × In id (authorizer_ids second_prepare.votes)
quorum_intersection_example =
    quorum_intersection toy config (λ id. not (id == 4)) first_prepare second_prepare (omega arith)
      first_verified second_verified
