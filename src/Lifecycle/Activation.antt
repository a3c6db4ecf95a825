-- ===== src/Lifecycle/Activation.antt =====
-- EpochActivationCertificate of prototype/locus/epoch_lifecycle.py.
use locus_v.Prelude.{ℕ, not, ◌||◌, List, [], ◌∷◌, map, ltb, leb}
use locus_v.Prelude.Eq.{nat_eq, list_eq}
use locus_v.Prelude.Lists.{length}
use locus_v.Prelude.Counts.{sorted}
use locus_v.Prelude.Ordered.{is_canonical}
use locus_v.Prelude.Results.{ok, raise, ◌>>=◌, ◌>>◌, raise_if}
use locus_v.Certificates.Values.{
  Text, Value, Values, string, array, object, last, member, codes, field_of, is_literal,
}
use locus_v.Certificates.Hash.{Crypto}
use locus_v.Certificates.Config.{AuthorizerConfig}
use locus_v.Lifecycle.Values.{
  malformed, unsupported_object, invalid_quorum, Cycled, cycle_dict, hash_text,
}
use locus_v.Lifecycle.Transition.{
  EpochTransition, transition_to_dict, transition_from_dict, verify_configs,
}
use locus_v.Lifecycle.Approval.{EpochApproval, verify_approval, approval_items, read_approvals}
use locus_v.Lifecycle.Ready.{EpochReady, verify_ready, ready_items, read_readiness}

pub record EpochActivationCertificate : Type 0 where
  pub transition : EpochTransition
  pub approvals : List EpochApproval
  pub readiness : List EpochReady

abbrev pub approval_ids : List EpochApproval → List ℕ
approval_ids approvals = map (λ a. a.party_id) approvals

abbrev pub ready_ids : List EpochReady → List ℕ
ready_ids readiness = map (λ r. r.party_id) readiness

unfoldable pub verify_approvals :
    Crypto → EpochTransition → AuthorizerConfig → List EpochApproval → Cycled (Unit {0})
unfolding verify_approval
verify_approvals crypto t config [] = ok tt
verify_approvals crypto t config (a ∷ rest) = do
  verify_approval crypto a t config
  verify_approvals crypto t config rest

unfoldable pub verify_readiness :
    Crypto → EpochTransition → AuthorizerConfig → List EpochReady → Cycled (Unit {0})
unfolding verify_ready
verify_readiness crypto t config [] = ok tt
verify_readiness crypto t config (r ∷ rest) = do
  verify_ready crypto r t config
  verify_readiness crypto t config rest

unfoldable pub verify_activation :
    Crypto → EpochActivationCertificate → AuthorizerConfig → AuthorizerConfig → Cycled (Unit {0})
unfolding verify_configs verify_approvals verify_readiness
verify_activation crypto c predecessor successor = do
  verify_configs crypto c.transition predecessor successor
  raise_if
      (not (is_canonical (approval_ids c.approvals))
        || not (is_canonical (ready_ids c.readiness))
        || ltb (length (approval_ids c.approvals)) predecessor.quorum
        || ltb (length (ready_ids c.readiness)) successor.quorum)
      invalid_quorum
  verify_approvals crypto c.transition predecessor c.approvals
  verify_readiness crypto c.transition successor c.readiness

unfoldable pub create_activation :
    Crypto
    → EpochTransition
    → List EpochApproval
    → List EpochReady
    → AuthorizerConfig
    → AuthorizerConfig
    → Cycled EpochActivationCertificate
unfolding verify_activation sorted
create_activation crypto t approvals readiness predecessor successor = do
  let c : EpochActivationCertificate = record {
    transition = t;
    approvals = sorted (λ a b. leb a.party_id b.party_id) approvals;
    readiness = sorted (λ a b. leb a.party_id b.party_id) readiness;
  }
  verify_activation crypto c predecessor successor
  ok c

abbrev pub activation_to_dict : EpochActivationCertificate → Value
activation_to_dict c = object (
    member "approvals" (array (approval_items c.approvals)) (
      member "readiness" (array (ready_items c.readiness)) (
        member "transition" (transition_to_dict c.transition)
          (member "version" (string (codes "LOCUS-epoch-activation-certificate-v1")) last))))

-- The items of a value that is a list.
abbrev pub list_items : Value → Cycled Values
list_items (array vs) = ok vs
list_items _ = raise malformed

unfoldable pub activation_from_dict : Value → Cycled EpochActivationCertificate
unfolding cycle_dict transition_from_dict
activation_from_dict value = do
  p ← cycle_dict ("approvals" ∷ "readiness" ∷ "transition" ∷ "version" ∷ []) value
  raise_if (not (is_literal (field_of p "version") "LOCUS-epoch-activation-certificate-v1"))
      unsupported_object
  approvals ← list_items (field_of p "approvals")
  readiness ← list_items (field_of p "readiness")
  t ← transition_from_dict (field_of p "transition")
  a ← read_approvals approvals
  r ← read_readiness readiness
  ok (record { transition = t; approvals = a; readiness = r })

unfoldable pub activation_hash : Crypto → EpochActivationCertificate → Text
unfolding hash_text
activation_hash crypto c =
    hash_text crypto "LOCUS/epoch-activation-certificate/v1"
      (crypto.encode (activation_to_dict c) ∷ [])
