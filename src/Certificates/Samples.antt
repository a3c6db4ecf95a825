-- ===== src/Certificates/Samples.antt =====
-- A toy `Crypto`, a configuration of four authorizers, an entry and its certificates.
use locus_v.Prelude.{ℕ, zero, suc, ◌+◌, ◌%◌, ◌≡◌, refl, List, [], ◌∷◌, ◌++◌}
use locus_v.Prelude.Eq.{◌==◌, nat_eq, list_eq}
use locus_v.Prelude.Sets.{to_set}
use locus_v.Prelude.Results.{ok}
use locus_v.Certificates.Values.{
  Text, Bytes, Value, null, integer, string, array, object, Values, item, Members, last, member,
  get_hex, get_integer,
}
use locus_v.Certificates.Hash.{Crypto, hash_bytes, to_hex}
use locus_v.Certificates.Config.{AuthorizerConfig, config_to_dict}
use locus_v.Certificates.Entry.{AttemptEntry, hash_entry, entry_vote_message, install_vote_message}
use locus_v.Certificates.Votes.{Vote, AuthorizerSigner}
use locus_v.Certificates.Prepare.{PrepareCertificate, prepare_hash, verify_prepare}
use locus_v.Certificates.Authorization.{AuthorizationCertificate, verify_authorization}

abbrev pub repeat : ℕ → ℕ → List ℕ
repeat zero b = []
repeat (suc n) b = b ∷ repeat n b

abbrev pub sum : Bytes → ℕ
sum [] = 0
sum (b ∷ bs) = b + sum bs

abbrev mutual
  pub print : Value → Bytes
  print (integer n) = n ∷ []
  print (string t) = t
  print (array vs) = print_values vs
  print (object m) = print_members m
  print _ = []

  pub print_values : Values → Bytes
  print_values Values.empty = []
  print_values (item v vs) = print v ++ print_values vs

  pub print_members : Members → Bytes
  print_members last = []
  print_members (member k v m) = print v ++ print_members m

-- A checksum in the last of `n + 1` bytes.
abbrev pub checksum : ℕ → Bytes → Bytes
checksum n bs = repeat n 0 ++ (sum bs % 256) ∷ []

abbrev pub toy : Crypto
toy = record {
  sha256 = checksum 31;
  encode = print;
  loads = λ _. null;
  sign = λ key message. checksum 63 (key ++ message);
  verifies = λ key signature message. signature == checksum 63 (key ++ message);
  public_key = λ key. key;
}

abbrev pub key_bytes : ℕ → Bytes
key_bytes id = repeat 31 0 ++ id ∷ []

abbrev pub zero_hex : ℕ → Text
zero_hex n = repeat n 48

abbrev pub signer : ℕ → AuthorizerSigner
signer id = record { party_id = id; private_key = key_bytes id }

-- The key's text in hexadecimal.
abbrev pub key_entry : ℕ → ℕ × Text
key_entry id = (id, repeat 63 48 ++ (48 + id) ∷ [])

abbrev pub config : AuthorizerConfig
config = record {
  bid = zero_hex 32;
  epoch = 1;
  backup_digest = zero_hex 64;
  fault_bound = 1;
  quorum = 3;
  public_keys = key_entry 1 ∷ key_entry 2 ∷ key_entry 3 ∷ key_entry 4 ∷ [];
}

unfoldable pub digest : Text
unfolding to_hex hash_bytes
digest = to_hex (hash_bytes toy "LOCUS/attempt-config/v2" (print (config_to_dict config) ∷ []))

abbrev pub entry : AttemptEntry
entry = record {
  bid = zero_hex 32;
  epoch = 1;
  config_digest = digest;
  log_index = 1;
  previous_head = zero_hex 64;
  sid = zero_hex 64;
  request_digest = zero_hex 64;
  tpass_request_hash = zero_hex 64;
  resulting_consumed = 1;
  effective_budget = 3;
}

unfoldable pub vote : ℕ → Vote
unfolding to_hex hash_bytes entry_vote_message
vote id = record {
  authorizer_id = id;
  subject = hash_entry toy entry;
  signature =
      to_hex (checksum 63 (key_bytes id ++ entry_vote_message toy digest (hash_entry toy entry)));
}

abbrev pub first_prepare : PrepareCertificate
first_prepare = record { entry = entry; votes = vote 1 ∷ vote 2 ∷ vote 3 ∷ [] }

abbrev pub second_prepare : PrepareCertificate
second_prepare = record { entry = entry; votes = vote 2 ∷ vote 3 ∷ vote 4 ∷ [] }

unfoldable pub install_vote : ℕ → Vote
unfolding to_hex prepare_hash install_vote_message
install_vote id = record {
  authorizer_id = id;
  subject = prepare_hash toy first_prepare;
  signature = to_hex (
      checksum 63
        (key_bytes id ++ install_vote_message toy digest (prepare_hash toy first_prepare)));
}

abbrev pub authorization : AuthorizationCertificate
authorization = record {
  prepare = first_prepare;
  install_votes = install_vote 1 ∷ install_vote 2 ∷ install_vote 4 ∷ [];
}

pub first_verified : verify_prepare toy first_prepare config ≡ ok tt
unfolding verify_prepare get_hex get_integer to_set digest vote
first_verified = refl

pub second_verified : verify_prepare toy second_prepare config ≡ ok tt
unfolding verify_prepare get_hex get_integer to_set digest vote
second_verified = refl

pub authorization_verified : verify_authorization toy authorization config ≡ ok tt
unfolding verify_authorization get_hex get_integer to_set digest vote install_vote
authorization_verified = refl
