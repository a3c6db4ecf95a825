-- ===== src/Lifecycle/Samples.antt =====
-- A toy activation: four authorizers, an epoch and its successor.
use locus_v.Prelude.{ℕ, false, ◌≡◌, refl, none, [], ◌∷◌, ◌++◌}
use locus_v.Prelude.Eq.{nat_eq, list_eq}
use locus_v.Prelude.Sets.{to_set}
use locus_v.Prelude.Results.{ok}
use locus_v.Certificates.Values.{Text, codes, get_hex, get_integer}
use locus_v.Certificates.Hash.{hash_bytes, to_hex, from_hex}
use locus_v.Certificates.Config.{AuthorizerConfig, config_to_dict}
use locus_v.Certificates.Samples.{toy, config, digest, zero_hex, key_bytes, checksum, print}
use locus_v.Lifecycle.Transition.{EpochTransition, hash_transition}
use locus_v.Lifecycle.Approval.{EpochApproval, approval_message}
use locus_v.Lifecycle.Package.{package_to_dict, hash_parameters, hash_party_state}
use locus_v.Lifecycle.Values.{hash_text}
use locus_v.Lifecycle.Ready.{EpochReady}
use locus_v.Lifecycle.Activation.{EpochActivationCertificate, verify_activation}

abbrev pub successor_config : AuthorizerConfig
successor_config = record config { epoch = 2 }

unfoldable pub successor_digest : Text
unfolding to_hex hash_bytes
successor_digest =
    to_hex (hash_bytes toy "LOCUS/attempt-config/v2" (print (config_to_dict successor_config) ∷ []))

abbrev pub transition : EpochTransition
transition = record {
  bid = zero_hex 32;
  predecessor_epoch = 1;
  predecessor_config_digest = digest;
  predecessor_backup_digest = zero_hex 64;
  predecessor_head = zero_hex 64;
  predecessor_consumed = 0;
  predecessor_budget = 3;
  successor_epoch = 2;
  successor_config_digest = successor_digest;
  successor_backup_digest = zero_hex 64;
  successor_budget = 5;
  policy_version = codes "LOCUS-epoch-lifecycle-policy-v1";
  transition_nonce = zero_hex 64;
}

unfoldable pub transition_digest : Text
unfolding hash_transition
transition_digest = hash_transition toy transition

unfoldable pub approval : ℕ → EpochApproval
unfolding to_hex approval_message
approval id = record {
  party_id = id;
  transition_hash = transition_digest;
  signature = to_hex (checksum 63 (key_bytes id ++ approval_message toy transition_digest));
}

unfoldable pub package_hash : ℕ → Text
unfolding hash_text hash_parameters hash_party_state
package_hash id = hash_text toy "LOCUS/runtime-epoch-package/v1" (
    print (
      package_to_dict (record {
        bid = zero_hex 32;
        epoch = 2;
        party_id = id;
        transition_hash = transition_digest;
        config_digest = successor_digest;
        backup_digest = zero_hex 64;
        native_enabled = false;
        parameters_hash = hash_parameters toy none;
        party_state_hash = hash_party_state toy none;
      }))
    ∷ [])

unfoldable pub ready : ℕ → EpochReady
unfolding to_hex from_hex hash_bytes
ready id = record {
  party_id = id;
  transition_hash = transition_digest;
  runtime_package_digest = package_hash id;
  signature = to_hex (
      checksum 63 (
        key_bytes id
        ++ hash_bytes toy "LOCUS/epoch-ready/v2"
            (from_hex transition_digest ∷ (id ∷ []) ∷ from_hex (package_hash id) ∷ [])));
}

abbrev pub activation : EpochActivationCertificate
activation = record {
  transition = transition;
  approvals = approval 1 ∷ approval 2 ∷ approval 3 ∷ [];
  readiness = ready 1 ∷ ready 2 ∷ ready 4 ∷ [];
}

-- The activation that other parties approved.
abbrev pub other_activation : EpochActivationCertificate
other_activation = record activation { approvals = approval 2 ∷ approval 3 ∷ approval 4 ∷ [] }

pub activation_verified : verify_activation toy activation config successor_config ≡ ok tt
unfolding verify_activation get_hex get_integer digest successor_digest transition_digest approval
    package_hash ready to_set
activation_verified = refl

pub other_verified : verify_activation toy other_activation config successor_config ≡ ok tt
unfolding verify_activation get_hex get_integer digest successor_digest transition_digest approval
    package_hash ready to_set
other_verified = refl
