-- ===== src/PartyStore/Tests.antt =====
-- The theorems on the party store of prototype/locus/party_store.py at concrete values.
use locus_v.Prelude.{ℕ, ◌≡◌, refl, arith, not, [], ◌∷◌}
use locus_v.Prelude.Eq.{◌==◌, nat_eq}
use locus_v.Prelude.Counts.{sorted}
use locus_v.Prelude.Lists.{count}
use locus_v.Prelude.Results.{ok}
use locus_v.Certificates.Values.{get_hex, get_integer}
use locus_v.Certificates.Votes.{vote_to_dict, entry_kind}
use locus_v.Certificates.Entry.{hash_entry}
use locus_v.Certificates.Samples.{
  toy, config, digest, entry, vote, signer, zero_hex, first_prepare, second_prepare, first_verified,
  second_verified,
}
use locus_v.PartyStore.Tables.{Store, empty_store}
use locus_v.PartyStore.Ledger.{first_row, advance_row, attempt_hash}
use locus_v.PartyStore.Slots.{new_lock, store_entry_vote, set_entry_vote}
use locus_v.PartyStore.Steps.{start}
use locus_v.PartyStore.Agreement.{Signed, one_entry_per_slot, certificates_agree}
use locus_v.PartyStore.Accounts.{IsBudgeted, in_epoch}
use locus_v.PartyStore.Budget.{attempts-IsBudgeted}
use locus_v.PartyStore.HashChain.{HasLog, attempts-HasLog}
use locus_v.PartyStore.Samples.{
  genesis_config, attempt, installed_store, enrolled_store, installed-Reach,
}

abbrev locked : Store
locked = record empty_store { slot_locks = new_lock toy entry (hash_entry toy entry) ∷ [] }

abbrev signed_by : ℕ → Store
signed_by id = record empty_store {
  slot_locks =
      set_entry_vote (toy.encode (vote_to_dict entry_kind (vote id)))
        (new_lock toy entry (hash_entry toy entry))
      ∷ [];
}

signing : (id : ℕ) → store_entry_vote toy entry (signer id) locked ≡ ok (vote id, signed_by id)
unfolding store_entry_vote get_hex get_integer sorted digest vote
signing id = refl

signed : (id : ℕ) → Signed toy entry (signed_by id)
signed id = record {
  before = locked;
  after_vote = signed_by id;
  signer = signer id;
  vote = vote id;
  signing = signing id;
  onward = start;
}

one_entry_per_slot_example : hash_entry toy entry ≡ hash_entry toy entry
one_entry_per_slot_example =
    one_entry_per_slot toy entry entry (signed_by 1) (signed 1) (signed 1) refl refl refl

certificates_agree_example :
    hash_entry toy first_prepare.entry ≡ hash_entry toy second_prepare.entry
certificates_agree_example =
    certificates_agree toy config (λ id. not (id == 4)) signed_by first_prepare second_prepare
      (omega arith) first_verified second_verified (λ id h m. signed id) (λ id h m. signed id) refl

attempts-IsBudgeted_example :
    IsBudgeted
      (advance_row (attempt_hash toy attempt) attempt (first_row genesis_config))
      (count (in_epoch (zero_hex 32) 1) installed_store.attempts)
unfolding attempt_hash installed_store enrolled_store
attempts-IsBudgeted_example =
    attempts-IsBudgeted toy installed_store (zero_hex 32) 1
      (advance_row (attempt_hash toy attempt) attempt (first_row genesis_config)) installed-Reach
      refl

attempts-HasLog_example :
    HasLog toy
      (zero_hex 32)
      1
      installed_store.attempts
      (advance_row (attempt_hash toy attempt) attempt (first_row genesis_config))
unfolding attempt_hash installed_store enrolled_store
attempts-HasLog_example =
    attempts-HasLog toy installed_store (zero_hex 32) 1
      (advance_row (attempt_hash toy attempt) attempt (first_row genesis_config)) installed-Reach
      refl
