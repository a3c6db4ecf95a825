-- ===== src/PartyStore/Succession.antt =====
-- One epoch, one successor: the transition locks of prototype/locus/party_store.py under any
-- transactions, and the activation certificates of epoch_lifecycle.py that honest stores have approved.
use locus_v.Prelude.{
  ℕ, ◌≤◌, ◌≡◌, true, not, Bool, none, some, List, sym, subst, ◌∙◌, arith, inl, inr, ◌⊎◌,
}
use locus_v.Prelude.Eq.{nat_eq, list_eq, eq_of_beq}
use locus_v.Prelude.Lists.{In, count}
use locus_v.Prelude.Results.{ok}
use locus_v.Certificates.Values.{Text}
use locus_v.Certificates.Hash.{Crypto}
use locus_v.Certificates.Config.{AuthorizerConfig, party_ids}
use locus_v.Certificates.Votes.{AuthorizerSigner}
use locus_v.Certificates.Intersection.{common_member}
use locus_v.Lifecycle.Transition.{EpochTransition, transition_hash}
use locus_v.Lifecycle.Approval.{EpochApproval}
use locus_v.Lifecycle.Activation.{EpochActivationCertificate, approval_ids, verify_activation}
use locus_v.Lifecycle.Accepted.{verify_activation-IsActivated, approvers-In}
use locus_v.PartyStore.EpochTables.{TransitionLock, at_transition}
use locus_v.PartyStore.Tables.{Store, select}
use locus_v.PartyStore.Authorizations.{authorization_fields}
use locus_v.PartyStore.Ledger.{AttemptAuthorization, install_authorization}
use locus_v.PartyStore.Successors.{store_approval}
use locus_v.PartyStore.PhaseSteps.{PhaseStep-Quiet}
use locus_v.PartyStore.EpochSteps.{TransitionChange, same, added, changed}
use locus_v.PartyStore.OnEpochs.{store_approval-Stored}
use locus_v.PartyStore.Activating.{EpochStep-cases}
use locus_v.PartyStore.Pinned.{Pinned, update-Pinned, added-Pinned}
use locus_v.PartyStore.Steps.{
  Step, enrolled, authorized, entry_locked, entry_voted, prepare_locked, install_voted,
  attempt_installed, authorization_recorded, phase_moved, epoch_moved, Reach, start, next,
}
use locus_v.PartyStore.Locks.{lock_entry-OnLocks, store_entry_vote-Voted}
use locus_v.PartyStore.Prepared.{
  lock_prepare-OnLocks, store_install_vote-OnLocks, record_authorization-OnLocks,
}
use locus_v.PartyStore.Install.{
  enroll_epoch_cases, install_authorization_cases, install_attempt-installed,
}

-- The transition of an epoch, as far as its lock never changes.
abbrev pub Held : Text → ℕ → Text → List TransitionLock → Type 0
Held bid epoch = Pinned (at_transition bid epoch) (λ r. r.transition_hash)

change-Held :
    (bid : Text) (epoch : ℕ) (hash : Text) (before after : List TransitionLock)
    → TransitionChange before after
    → Held bid epoch hash before
    → Held bid epoch hash after
change-Held bid epoch hash before _ same h = h
change-Held bid epoch hash before _ (added r free) h =
    added-Pinned (at_transition bid epoch) (λ x. x.transition_hash) hash r before
      (λ at.
        subst (λ z. select (at_transition z epoch) before ≡ none)
          (eq_of_beq r.bid bid (ground (arith, at)))
          (subst (λ z. select (at_transition r.bid z) before ≡ none)
            (eq_of_beq r.predecessor_epoch epoch (ground (arith, at))) free))
      h
change-Held bid epoch hash before _ (changed test change keeps) h =
    update-Pinned (at_transition bid epoch) (λ x. x.transition_hash) hash test change before
      (λ x. (ground (arith, (keeps x).same_bid, (keeps x).same_epoch), (keeps x).same_hash)) h

install-same_transitions :
    (crypto : Crypto) (g : Text) (s t : Store) (a : AttemptAuthorization)
    → install_authorization crypto a s ≡ ok (g, t)
    → t.transition_locks ≡ s.transition_locks
install-same_transitions crypto g s t a e =
    elim ((install_authorization_cases crypto a g s t e).1) [
      | inl o ↦ ground (arith, o)
      | inr i ↦ i.transitions
    ]

-- A step changes the transition locks in the way of a transaction on successor epochs, or not.
Step-TransitionChange :
    (crypto : Crypto) (s t : Store)
    → Step crypto s t
    → (t.transition_locks ≡ s.transition_locks)
      ⊎ TransitionChange s.transition_locks t.transition_locks
Step-TransitionChange crypto s t (enrolled c e) = elim (enroll_epoch_cases crypto c s t e) [
  | inl o ↦ inl (ground (arith, o))
  | inr i ↦ inl i.transitions
]
Step-TransitionChange crypto s t (authorized a g e) =
    inl (install-same_transitions crypto g s t a e)
Step-TransitionChange crypto s t (entry_locked e c g v k) =
    inl (lock_entry-OnLocks crypto e c g s t v k).same_transitions
Step-TransitionChange crypto s t (entry_voted e g v k) =
    inl (store_entry_vote-Voted crypto e g s t v k).change.same_transitions
Step-TransitionChange crypto s t (prepare_locked p c g v k) =
    inl (lock_prepare-OnLocks crypto p c g s t v k).same_transitions
Step-TransitionChange crypto s t (install_voted p g v k) =
    inl (store_install_vote-OnLocks crypto p g s t v k).same_transitions
Step-TransitionChange crypto s t (attempt_installed a c e) =
    let (_, (g, i)) = install_attempt-installed crypto a c s t e in
    inl (install-same_transitions crypto g s t (authorization_fields crypto a) i)
Step-TransitionChange crypto s t (authorization_recorded a k) =
    inl (record_authorization-OnLocks crypto a s t k).same_transitions
Step-TransitionChange crypto s t (phase_moved k) =
    inl (PhaseStep-Quiet crypto s t k).same_transitions
Step-TransitionChange crypto s t (epoch_moved k) = elim (EpochStep-cases crypto s t k) [
  | inl a ↦ inr a.transitions
  | inr a ↦ inl a.same_transitions
]

Reach-Held :
    (crypto : Crypto) (bid : Text) (epoch : ℕ) (hash : Text) (s t : Store)
    → Reach crypto s t
    → Held bid epoch hash s.transition_locks
    → Held bid epoch hash t.transition_locks
Reach-Held crypto bid epoch hash s t start h = h
Reach-Held crypto bid epoch hash s t (next {t = u} r k) h =
    let before = Reach-Held crypto bid epoch hash s u r h in
    elim (Step-TransitionChange crypto u t k) [
      | inl e ↦ subst (Held bid epoch hash) (sym e) before
      | inr c ↦ change-Held bid epoch hash _ _ c before
    ]

-- The store has approved the transition, at some moment of the run that led to `final`.
pub record Approved (crypto : Crypto) (t : EpochTransition) (final : Store) : Type 0 where
  pub before : Store
  pub after_approval : Store
  pub signer : AuthorizerSigner
  pub approval : EpochApproval
  pub approving : store_approval crypto t signer before ≡ ok (approval, after_approval)
  pub onward : Reach crypto after_approval final

Approved-Held :
    (crypto : Crypto) (t : EpochTransition) (final : Store)
    → Approved crypto t final
    → (hash : Text) × (transition_hash crypto t ≡ ok hash)
      × Held t.bid t.predecessor_epoch hash final.transition_locks
Approved-Held crypto t final x =
    let w =
      store_approval-Stored crypto t x.signer x.before x.after_approval x.approval x.approving in
    (
      w.hash,
      w.hash_of,
      Reach-Held crypto t.bid t.predecessor_epoch w.hash x.after_approval final x.onward (
          change-Held t.bid t.predecessor_epoch w.hash _ _ w.change.transitions
            (w.row, w.found_row, w.same_hash)),
    )

-- One store approves one successor of an epoch.
pub one_transition_per_epoch :
    (crypto : Crypto) (a b : EpochTransition) (final : Store)
    → Approved crypto a final
    → Approved crypto b final
    → a.bid ≡ b.bid
    → a.predecessor_epoch ≡ b.predecessor_epoch
    → transition_hash crypto a ≡ transition_hash crypto b
one_transition_per_epoch crypto a b final x y same_bid same_epoch =
    let (g, hash_g, (r, p, e)) = Approved-Held crypto a final x in
    let (h, hash_h, (q, o, f)) = Approved-Held crypto b final y in
    let at : select (at_transition b.bid b.predecessor_epoch) final.transition_locks ≡ some r =
      cc (p, same_bid, same_epoch) in
    let same_row : r ≡ q = ground (arith, o, at) in
    let same_hash : g ≡ h = cc (e, f, same_row) in cc (hash_g, hash_h, same_hash)

-- When at most `fault_bound` authorizers of an epoch are dishonest, and every honest authorizer whose
-- approval is in a certificate has approved its transition from its own store, two activation
-- certificates that verify against the configuration of the epoch have the same transition hash,
-- whatever the configurations of their successors.
pub successors_agree :
    (crypto : Crypto) (c p q : AuthorizerConfig) (honest : ℕ → Bool) (final : ℕ → Store)
    (a b : EpochActivationCertificate)
    → count (λ id. not (honest id)) (party_ids c.public_keys) ≤ c.fault_bound
    → verify_activation crypto a c p ≡ ok tt
    → verify_activation crypto b c q ≡ ok tt
    → ((id : ℕ)
        → honest id ≡ true
        → In id (approval_ids a.approvals)
        → Approved crypto a.transition (final id))
    → ((id : ℕ)
        → honest id ≡ true
        → In id (approval_ids b.approvals)
        → Approved crypto b.transition (final id))
    → transition_hash crypto a.transition ≡ transition_hash crypto b.transition
successors_agree crypto c p q honest final a b faults h k approved_a approved_b =
    let x = verify_activation-IsActivated crypto a c p h in
    let y = verify_activation-IsActivated crypto b c q k in
    let (id, good, in_a, in_b) =
      common_member c honest (approval_ids a.approvals) (approval_ids b.approvals) faults x.config
        (x.ordered, y.ordered)
        (
          approvers-In crypto c.public_keys x.hash a.approvals x.approvals,
          approvers-In crypto c.public_keys y.hash b.approvals y.approvals,
        )
        (x.enough, y.enough) in
    one_transition_per_epoch crypto a.transition b.transition (final id) (approved_a id good in_a)
      (approved_b id good in_b) (x.same_bid ∙ sym y.same_bid) (x.same_epoch ∙ sym y.same_epoch)
