-- ===== src/Lifecycle/Reading.antt =====
-- An EpochActivationCertificate of prototype/locus/epoch_lifecycle.py is read from what it writes.
use locus_v.Prelude.{◌≡◌, List, [], ◌∷◌, refl, arith}
use locus_v.Prelude.Lists.{All}
use locus_v.Prelude.Counts.{All-mono}
use locus_v.Prelude.Results.{ok}
use locus_v.Certificates.Hash.{Crypto}
use locus_v.Certificates.Config.{AuthorizerConfig}
use locus_v.Lifecycle.Values.{cycle_dict}
use locus_v.Lifecycle.Approval.{
  EpochApproval, approval_to_dict, approval_from_dict, approval_items, read_approvals,
}
use locus_v.Lifecycle.Ready.{
  EpochReady, ready_to_dict, ready_from_dict, ready_items, read_readiness,
}
use locus_v.Lifecycle.Activation.{
  EpochActivationCertificate, verify_activation, activation_to_dict, activation_from_dict,
}
use locus_v.Lifecycle.RoundTrip.{transition_from_dict-transition_to_dict}
use locus_v.Lifecycle.Accepted.{IsApproval, verify_activation-IsActivated}

read_approvals-approval_items :
    (approvals : List EpochApproval)
    → All (λ a. approval_from_dict (approval_to_dict a) ≡ ok a) approvals
    → read_approvals (approval_items approvals) ≡ ok approvals
read_approvals-approval_items [] h = refl
read_approvals-approval_items (a ∷ rest) (x, xs) =
    ground (arith, x, read_approvals-approval_items rest xs)

read_readiness-ready_items :
    (readiness : List EpochReady)
    → All (λ r. ready_from_dict (ready_to_dict r) ≡ ok r) readiness
    → read_readiness (ready_items readiness) ≡ ok readiness
read_readiness-ready_items [] h = refl
read_readiness-ready_items (r ∷ rest) (x, xs) =
    ground (arith, x, read_readiness-ready_items rest xs)

-- An activation certificate that verifies is read back from its dictionary.
pub activation_from_dict-activation_to_dict :
    (crypto : Crypto) (c : EpochActivationCertificate) (p q : AuthorizerConfig)
    → verify_activation crypto c p q ≡ ok tt
    → activation_from_dict (activation_to_dict c) ≡ ok c
unfolding activation_from_dict cycle_dict
activation_from_dict-activation_to_dict crypto c p q h =
    let x = verify_activation-IsActivated crypto c p q h in
    ground (
      arith,
      transition_from_dict-transition_to_dict c.transition x.valid,
      read_approvals-approval_items c.approvals (
          All-mono (IsApproval crypto p.public_keys x.hash)
            (λ a. approval_from_dict (approval_to_dict a) ≡ ok a) c.approvals (λ a y. y.shape)
            x.approvals),
      read_readiness-ready_items c.readiness x.readiness,
    )
