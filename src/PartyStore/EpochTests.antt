-- ===== src/PartyStore/EpochTests.antt =====
-- The theorems on successor epochs of prototype/locus/party_store.py at concrete values.
use locus_v.Prelude.{ℕ, ◌≡◌, ◌≤◌, ◌⊎◌, not, refl, some, [], ◌∷◌, arith}
use locus_v.Prelude.Eq.{◌==◌, nat_eq, list_eq}
use locus_v.Prelude.Counts.{sorted}
use locus_v.Prelude.Sets.{to_set}
use locus_v.Prelude.Lists.{count}
use locus_v.Prelude.Results.{ok}
use locus_v.Certificates.Values.{get_hex, get_integer}
use locus_v.Certificates.Samples.{
  toy, config, digest, signer, vote, install_vote, zero_hex, authorization,
}
use locus_v.Certificates.Entry.{hash_entry}
use locus_v.Lifecycle.Transition.{transition_hash}
use locus_v.Lifecycle.Approval.{approval_to_dict}
use locus_v.Lifecycle.Samples.{
  successor_config, successor_digest, transition, transition_digest, approval, package_hash, ready,
  activation, other_activation, activation_verified, other_verified,
}
use locus_v.PartyStore.Tables.{Store, empty_store, select, at_epoch, at_session}
use locus_v.PartyStore.Ledger.{first_row, attempt_row}
use locus_v.PartyStore.Authorizations.{install_attempt, authorization_fields}
use locus_v.PartyStore.Successors.{
  lock_transition, new_transition_lock, set_approval, store_approval,
}
use locus_v.PartyStore.Preparations.{prepare_successor_epoch}
use locus_v.PartyStore.Activate.{activate_successor_epoch, set_retired, successor_row}
use locus_v.PartyStore.Steps.{epoch_moved, start, next}
use locus_v.PartyStore.EpochSteps.{successor_activated}
use locus_v.Lifecycle.Activation.{activation_hash}
use locus_v.PartyStore.Succession.{Approved, successors_agree}
use locus_v.PartyStore.EpochLaws.{active_in, one_active_epoch, retired_forever}
use locus_v.PartyStore.EpochChain.{IsRetired, predecessor-IsRetired}
use locus_v.PartyStore.Reinstall.{install_attempt-again}
use locus_v.PartyStore.Accounts.{in_epoch}
use locus_v.PartyStore.Samples.{genesis_config, enrolled_store, installed_store}
use locus_v.PartyStore.EpochSamples.{
  reading, locked_store, approved_store, prepared_store, activated_store, activated-Reach,
}

abbrev held : Store
held = record empty_store {
  transition_locks = new_transition_lock toy transition transition_digest ∷ [];
}

abbrev approved_by : ℕ → Store
approved_by id = record empty_store {
  transition_locks =
      set_approval (toy.encode (approval_to_dict (approval id)))
        (new_transition_lock toy transition transition_digest)
      ∷ [];
}

approving :
    (id : ℕ) → store_approval toy transition (signer id) held ≡ ok (approval id, approved_by id)
unfolding store_approval get_hex get_integer digest successor_digest transition_digest approval
    sorted
approving id = refl

approved : (id : ℕ) → Approved toy transition (approved_by id)
approved id = record {
  before = held;
  after_approval = approved_by id;
  signer = signer id;
  approval = approval id;
  approving = approving id;
  onward = start;
}

successors_agree_example :
    transition_hash toy activation.transition ≡ transition_hash toy other_activation.transition
successors_agree_example =
    successors_agree toy config successor_config successor_config (λ id. not (id == 4)) approved_by
      activation other_activation (omega arith) activation_verified other_verified
      (λ id h m. approved id) (λ id h m. approved id)

one_active_epoch_example : count (active_in (zero_hex 32)) activated_store.epochs ≤ 1
one_active_epoch_example = one_active_epoch reading activated_store (zero_hex 32) activated-Reach

-- An activation that has been done is answered again.
activating_again :
    activate_successor_epoch reading activation config successor_config activated_store
    ≡ ok (activation_hash reading activation, activated_store)
unfolding locked_store enrolled_store approved_store prepared_store activated_store
    activate_successor_epoch prepare_successor_epoch lock_transition store_approval get_hex
    get_integer digest successor_digest transition_digest to_set approval package_hash ready
activating_again = refl

retired_forever_example :
    (select (at_epoch (zero_hex 32) 1) activated_store.epochs
      ≡ some (set_retired (first_row genesis_config)))
    × (count (in_epoch (zero_hex 32) 1) activated_store.attempts
        ≡ count (in_epoch (zero_hex 32) 1) activated_store.attempts)
unfolding activated_store prepared_store approved_store locked_store enrolled_store digest
    successor_digest get_integer to_set approval ready transition_digest package_hash
retired_forever_example =
    retired_forever reading activated_store activated_store (zero_hex 32) 1
      (set_retired (first_row genesis_config)) activated-Reach
      (next start (
        epoch_moved (
          successor_activated activation config successor_config
            (activation_hash reading activation) activating_again)))
      refl refl

predecessor-IsRetired_example : (◌≡◌ {A = ℕ} 1 0) ⊎ IsRetired activated_store.epochs (zero_hex 32) 1
unfolding activated_store prepared_store approved_store locked_store enrolled_store digest
    successor_digest get_integer to_set approval ready transition_digest package_hash
predecessor-IsRetired_example =
    predecessor-IsRetired reading activated_store (zero_hex 32) 1 (successor_row transition 1)
      activated-Reach refl

install_attempt_installs :
    install_attempt toy authorization config enrolled_store ≡ ok installed_store
unfolding install_attempt installed_store enrolled_store sorted digest get_hex get_integer to_set
    vote install_vote
install_attempt_installs = refl

install_attempt-again_example :
    (select (at_session (zero_hex 32) 1 (zero_hex 64)) installed_store.attempts
      ≡ some (
          attempt_row
            (hash_entry toy authorization.prepare.entry)
            (authorization_fields toy authorization)))
    × (install_attempt toy authorization config installed_store ≡ ok installed_store)
install_attempt-again_example =
    install_attempt-again toy authorization config enrolled_store installed_store
      install_attempt_installs
