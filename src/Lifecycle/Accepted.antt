-- ===== src/Lifecycle/Accepted.antt =====
-- What EpochActivationCertificate.verify of prototype/locus/epoch_lifecycle.py establishes when it
-- returns.
use locus_v.Prelude.{
  ◌≤◌, ◌≡◌, true, not, ◌||◌, Option, none, some, List, [], ◌∷◌, refl, sym, subst, ◌∙◌, arith, ltb,
}
use locus_v.Prelude.Eq.{◌==◌, nat_eq, list_eq, eq_of_beq}
use locus_v.Prelude.Lists.{length, All, In}
use locus_v.Prelude.Ordered.{is_canonical, Increasing, is_canonical-Increasing}
use locus_v.Prelude.Results.{ok, raise, or_raise, bind-ok, raise_if-ok}
use locus_v.Certificates.Values.{Text}
use locus_v.Certificates.Hash.{Crypto, from_hex}
use locus_v.Certificates.Config.{
  PublicKeys, AuthorizerConfig, key_of, party_ids, validate_config, config_digest,
}
use locus_v.Certificates.Accepted.{IsConfig, validate_config-IsConfig}
use locus_v.Certificates.Intersection.{known_id}
use locus_v.Lifecycle.Values.{unknown_signer, from_config}
use locus_v.Certificates.Values.{Checked}
use locus_v.Lifecycle.Transition.{
  EpochTransition, transition_hash, hash_transition, validate_transition, verify_configs,
}
use locus_v.Lifecycle.Approval.{
  EpochApproval, approval_members, approval_to_dict, approval_from_dict, read_approval,
  verify_approval, approval_message, verify_lifecycle_signature,
}
use locus_v.Lifecycle.Ready.{
  EpochReady, ready_members, ready_to_dict, read_ready, ready_from_dict, verify_ready,
}
use locus_v.Lifecycle.RoundTrip.{approval_from_dict-approval_to_dict, ready_from_dict-ready_to_dict}
use locus_v.Lifecycle.Activation.{
  EpochActivationCertificate, approval_ids, ready_ids, verify_approvals, verify_readiness,
  verify_activation,
}

-- An approval of the transition with the hash that a configured party has signed.
pub record IsApproval (crypto : Crypto) (keys : PublicKeys) (hash : Text) (a : EpochApproval)
    : Type 0 where
  pub key : Text
  pub known : key_of keys a.party_id ≡ some key
  pub shape : approval_from_dict (approval_to_dict a) ≡ ok a
  pub for_transition : a.transition_hash ≡ hash
  pub signed :
      crypto.verifies (from_hex key) (from_hex a.signature) (approval_message crypto hash) ≡ true

or_raise-known : (o : Option Text) (k : Text) → or_raise o unknown_signer ≡ ok k → o ≡ some k
or_raise-known none k h = absurd (cc)
or_raise-known (some x) k h = cc

from_config-ok : {A : Type 0} (x : Checked A) (a : A) → from_config x ≡ ok a → x ≡ ok a
from_config-ok (ok b) a h = cc
from_config-ok (raise e) a h = absurd (cc)

verify_approval-IsApproval :
    (crypto : Crypto) (a : EpochApproval) (t : EpochTransition) (c : AuthorizerConfig) (hash : Text)
    → transition_hash crypto t ≡ ok hash
    → verify_approval crypto a t c ≡ ok tt
    → IsApproval crypto c.public_keys hash a
unfolding verify_approval verify_lifecycle_signature
verify_approval-IsApproval crypto a t c hash known h =
    let (x, readable, h1) = bind-ok (read_approval (approval_members a)) _ _ h in
    let (g, k, h2) = bind-ok (transition_hash crypto t) _ _ h1 in
    let (equal, h3) = raise_if-ok (not (a.transition_hash == g)) _ _ _ h2 in
    let (key, found_key, h4) =
      bind-ok (or_raise (key_of c.public_keys a.party_id) unknown_signer) _ _ h3 in
    let same : g ≡ hash = ground (arith, k, known) in
    let here : a.transition_hash ≡ hash =
      eq_of_beq a.transition_hash g (ground (arith, equal)) ∙ same in
    let verified : crypto.verifies (from_hex key) (from_hex a.signature)
          (approval_message crypto a.transition_hash)
        ≡ true =
      ground (arith, h4) in
    record {
      key = key;
      known = or_raise-known (key_of c.public_keys a.party_id) key found_key;
      shape = approval_from_dict-approval_to_dict a x readable;
      for_transition = here;
      signed =
          subst
            (λ x.
              crypto.verifies (from_hex key) (from_hex a.signature) (approval_message crypto x)
              ≡ true)
            here verified;
    }

verify_approvals-All :
    (crypto : Crypto) (t : EpochTransition) (c : AuthorizerConfig) (hash : Text)
    (approvals : List EpochApproval)
    → transition_hash crypto t ≡ ok hash
    → verify_approvals crypto t c approvals ≡ ok tt
    → All (IsApproval crypto c.public_keys hash) approvals
unfolding verify_approvals
verify_approvals-All crypto t c hash [] known h = tt
verify_approvals-All crypto t c hash (a ∷ rest) known h =
    let (_, first, h1) = bind-ok (verify_approval crypto a t c) _ _ h in
    (
      verify_approval-IsApproval crypto a t c hash known first,
      verify_approvals-All crypto t c hash rest known h1,
    )

verify_readiness-All :
    (crypto : Crypto) (t : EpochTransition) (c : AuthorizerConfig) (readiness : List EpochReady)
    → verify_readiness crypto t c readiness ≡ ok tt
    → All (λ r. ready_from_dict (ready_to_dict r) ≡ ok r) readiness
unfolding verify_readiness verify_ready
verify_readiness-All crypto t c [] h = tt
verify_readiness-All crypto t c (r ∷ rest) h =
    let (_, first, h1) = bind-ok (verify_ready crypto r t c) _ _ h in
    let (x, readable, _) = bind-ok (read_ready (ready_members r)) _ _ first in
    (ready_from_dict-ready_to_dict r x readable, verify_readiness-All crypto t c rest h1)

pub approvers-In :
    (crypto : Crypto) (keys : PublicKeys) (hash : Text) (approvals : List EpochApproval)
    → All (IsApproval crypto keys hash) approvals
    → All (λ id. In id (party_ids keys)) (approval_ids approvals)
approvers-In crypto keys hash [] h = tt
approvers-In crypto keys hash (a ∷ rest) (x, xs) =
    (known_id keys a.party_id x.key x.known, approvers-In crypto keys hash rest xs)

-- An activation certificate whose checks have passed.
pub record IsActivated (crypto : Crypto) (c : EpochActivationCertificate) (p : AuthorizerConfig)
    : Type 0 where
  pub config : IsConfig p
  pub valid : validate_transition c.transition ≡ ok tt
  pub same_bid : c.transition.bid ≡ p.bid
  pub same_epoch : c.transition.predecessor_epoch ≡ p.epoch
  pub ordered : Increasing (approval_ids c.approvals)
  pub enough : p.quorum ≤ length (approval_ids c.approvals)
  pub hash : Text
  pub hash_of : transition_hash crypto c.transition ≡ ok hash
  pub approvals : All (IsApproval crypto p.public_keys hash) c.approvals
  pub readiness : All (λ r. ready_from_dict (ready_to_dict r) ≡ ok r) c.readiness

validate-hash :
    (crypto : Crypto) (t : EpochTransition)
    → validate_transition t ≡ ok tt
    → transition_hash crypto t ≡ ok (hash_transition crypto t)
unfolding transition_hash
validate-hash crypto t h = rw h refl

pub verify_activation-IsActivated :
    (crypto : Crypto) (c : EpochActivationCertificate) (p q : AuthorizerConfig)
    → verify_activation crypto c p q ≡ ok tt
    → IsActivated crypto c p
unfolding verify_activation verify_configs
verify_activation-IsActivated crypto c p q h =
    let t = c.transition in
    let (_, configs, h1) = bind-ok (verify_configs crypto t p q) _ _ h in
    let (_, valid, k1) = bind-ok (validate_transition t) _ _ configs in
    let (_, config, k2) = bind-ok (from_config (validate_config p)) _ _ k1 in
    let (_, _, k3) = bind-ok (from_config (validate_config q)) _ _ k2 in
    let (before, _, k4) = bind-ok (from_config (config_digest crypto p)) _ _ k3 in
    let (after, _, k5) = bind-ok (from_config (config_digest crypto q)) _ _ k4 in
    let (matches, _) =
      raise_if-ok
        (not (p.bid == t.bid)
          || not (p.epoch == t.predecessor_epoch)
          || not (before == t.predecessor_config_digest)
          || not (p.backup_digest == t.predecessor_backup_digest)
          || not (q.bid == t.bid)
          || not (q.epoch == t.successor_epoch)
          || not (after == t.successor_config_digest)
          || not (q.backup_digest == t.successor_backup_digest))
        _ _ _ k5 in
    let (quorums, h2) =
      raise_if-ok
        (not (is_canonical (approval_ids c.approvals))
          || not (is_canonical (ready_ids c.readiness))
          || ltb (length (approval_ids c.approvals)) p.quorum
          || ltb (length (ready_ids c.readiness)) q.quorum)
        _ _ _ h1 in
    let (_, approved, h3) = bind-ok (verify_approvals crypto t p c.approvals) _ _ h2 in
    let known = validate-hash crypto t valid in
    record {
      config = validate_config-IsConfig p (from_config-ok (validate_config p) tt config);
      valid = valid;
      same_bid = sym (eq_of_beq p.bid t.bid (ground (arith, matches)));
      same_epoch = sym (eq_of_beq p.epoch t.predecessor_epoch (ground (arith, matches)));
      ordered = is_canonical-Increasing (approval_ids c.approvals) (ground (arith, quorums));
      enough = ground (arith, quorums);
      hash = hash_transition crypto t;
      hash_of = known;
      approvals =
          verify_approvals-All crypto t p (hash_transition crypto t) c.approvals known approved;
      readiness = verify_readiness-All crypto t q c.readiness h3;
    }
