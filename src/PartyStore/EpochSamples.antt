-- ===== src/PartyStore/EpochSamples.antt =====
-- A party store with a retired epoch and its successor.
use locus_v.Prelude.{◌≡◌, refl, none}
use locus_v.Prelude.Eq.{nat_eq, list_eq, option_eq}
use locus_v.Prelude.Counts.{sorted}
use locus_v.Prelude.Sets.{to_set}
use locus_v.Prelude.Results.{ok, raise}
use locus_v.Certificates.Values.{get_hex, get_integer}
use locus_v.Certificates.Hash.{Crypto}
use locus_v.Certificates.Samples.{toy, config, digest, signer}
use locus_v.Lifecycle.Ready.{ready_to_dict}
use locus_v.Lifecycle.Activation.{activation_hash}
use locus_v.Lifecycle.Samples.{
  successor_config, successor_digest, transition, transition_digest, approval, package_hash, ready,
  activation,
}
use locus_v.PartyStore.Tables.{Stored, Store, empty_store}
use locus_v.PartyStore.Ledger.{EpochConfig, enroll_epoch}
use locus_v.PartyStore.Successors.{lock_transition, store_approval}
use locus_v.PartyStore.Preparations.{prepare_successor_epoch}
use locus_v.PartyStore.Activate.{activate_successor_epoch}
use locus_v.PartyStore.EpochSteps.{
  transition_locked, approval_stored, successor_prepared, successor_activated,
}
use locus_v.PartyStore.Steps.{Reach, enrolled, epoch_moved, start, next}
use locus_v.PartyStore.Samples.{genesis_config, enrolled_store}

-- A `loads` that reads the readiness of the party.
abbrev pub reading : Crypto
reading = record toy { loads = λ _. ready_to_dict (ready 1) }

abbrev pub next_config : EpochConfig
next_config = record genesis_config { epoch = 2; config_digest = successor_digest; budget = 5 }

abbrev pub store_of : {A : Type 0} → Stored (A × Store) → Store
store_of (ok p) = p.1
store_of (raise e) = empty_store

unfoldable pub locked_store : Store
unfolding lock_transition enrolled_store
locked_store =
    store_of (lock_transition reading transition config successor_config (signer 1) enrolled_store)

unfoldable pub approved_store : Store
unfolding store_approval
approved_store = store_of (store_approval reading transition (signer 1) locked_store)

unfoldable pub prepared_store : Store
unfolding prepare_successor_epoch
prepared_store = store_of (
    prepare_successor_epoch reading next_config transition config successor_config (signer 1) none
      none approved_store)

unfoldable pub activated_store : Store
unfolding activate_successor_epoch
activated_store =
    store_of (activate_successor_epoch reading activation config successor_config prepared_store)

enrolling_epoch : enroll_epoch reading genesis_config empty_store ≡ ok enrolled_store
unfolding enrolled_store enroll_epoch sorted digest
enrolling_epoch = refl

locking :
    lock_transition reading transition config successor_config (signer 1) enrolled_store
    ≡ ok (none, locked_store)
unfolding locked_store enrolled_store lock_transition get_hex get_integer digest successor_digest
    transition_digest to_set
locking = refl

approving :
    store_approval reading transition (signer 1) locked_store ≡ ok (approval 1, approved_store)
unfolding locked_store enrolled_store approved_store lock_transition store_approval get_hex
    get_integer digest successor_digest transition_digest to_set approval
approving = refl

preparing :
    prepare_successor_epoch reading next_config transition config successor_config
      (signer 1)
      none
      none
      approved_store
    ≡ ok (ready 1, prepared_store)
unfolding locked_store enrolled_store approved_store prepared_store prepare_successor_epoch
    lock_transition store_approval get_hex get_integer digest successor_digest transition_digest
    to_set approval package_hash ready
preparing = refl

activating :
    activate_successor_epoch reading activation config successor_config prepared_store
    ≡ ok (activation_hash reading activation, activated_store)
unfolding locked_store enrolled_store approved_store prepared_store activated_store
    activate_successor_epoch prepare_successor_epoch lock_transition store_approval get_hex
    get_integer digest successor_digest transition_digest to_set approval package_hash ready
activating = refl

pub activated-Reach : Reach reading empty_store activated_store
activated-Reach =
    next
      (next
        (next
          (next (next start (enrolled genesis_config enrolling_epoch)) (
            epoch_moved
              (transition_locked transition config successor_config (signer 1) none locking)))
          (epoch_moved (approval_stored transition (signer 1) (approval 1) approving)))
        (epoch_moved (
          successor_prepared next_config transition config successor_config (signer 1) none none
            (ready 1) preparing)))
      (epoch_moved (
        successor_activated activation config successor_config (activation_hash reading activation)
          activating))
