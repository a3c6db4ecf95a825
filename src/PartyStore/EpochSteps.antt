-- ===== src/PartyStore/EpochSteps.antt =====
-- The transactions of prototype/locus/party_store.py on successor epochs as a step relation, and what
-- they do to the tables.
use locus_v.Prelude.{ℕ, ◌+◌, ◌≡◌, Bool, true, Option, none, some, List, ◌∷◌}
use locus_v.Prelude.Eq.{nat_eq, list_eq, option_eq}
use locus_v.Prelude.Results.{ok}
use locus_v.Certificates.Values.{Text, Bytes}
use locus_v.Certificates.Hash.{Crypto}
use locus_v.Certificates.Config.{AuthorizerConfig}
use locus_v.Certificates.Votes.{AuthorizerSigner}
use locus_v.Lifecycle.Transition.{EpochTransition}
use locus_v.Lifecycle.Approval.{EpochApproval}
use locus_v.Lifecycle.Ready.{EpochReady}
use locus_v.Lifecycle.Activation.{EpochActivationCertificate}
use locus_v.PartyStore.EpochTables.{TransitionLock, at_transition}
use locus_v.PartyStore.Tables.{EpochRow, Store, is_active, select, update, at_epoch}
use locus_v.PartyStore.Ledger.{EpochConfig}
use locus_v.PartyStore.Runtime.{register_initial_runtime_package}
use locus_v.PartyStore.Successors.{matching_predecessor, lock_transition, store_approval}
use locus_v.PartyStore.Preparations.{prepare_successor_epoch}
use locus_v.PartyStore.Activate.{set_retired, successor_row, activate_successor_epoch}

pub data EpochStep (crypto : Crypto) (s : Store) : Store → Type 0 where
  transition_locked :
      {u : Store} (t : EpochTransition) (p q : AuthorizerConfig) (g : AuthorizerSigner)
      (v : Option EpochApproval)
      → lock_transition crypto t p q g s ≡ ok (v, u)
      → EpochStep crypto s u
  approval_stored :
      {u : Store} (t : EpochTransition) (g : AuthorizerSigner) (a : EpochApproval)
      → store_approval crypto t g s ≡ ok (a, u)
      → EpochStep crypto s u
  successor_prepared :
      {u : Store} (c : EpochConfig) (t : EpochTransition) (p q : AuthorizerConfig)
      (g : AuthorizerSigner) (parameters party_state : Option Bytes) (r : EpochReady)
      → prepare_successor_epoch crypto c t p q g parameters party_state s ≡ ok (r, u)
      → EpochStep crypto s u
  package_registered :
      {u : Store} (c : EpochConfig) (p : AuthorizerConfig) (parameters party_state : Option Bytes)
      (h : Text)
      → register_initial_runtime_package crypto c p parameters party_state s ≡ ok (h, u)
      → EpochStep crypto s u
  successor_activated :
      {u : Store} (c : EpochActivationCertificate) (p q : AuthorizerConfig) (h : Text)
      → activate_successor_epoch crypto c p q s ≡ ok (h, u)
      → EpochStep crypto s u

pub record SameTransition (x y : TransitionLock) : Type 0 where
  pub same_bid : y.bid ≡ x.bid
  pub same_epoch : y.predecessor_epoch ≡ x.predecessor_epoch
  pub same_hash : y.transition_hash ≡ x.transition_hash

pub data TransitionChange (before : List TransitionLock) : List TransitionLock → Type 0 where
  same : TransitionChange before before
  added :
      (r : TransitionLock)
      → select (at_transition r.bid r.predecessor_epoch) before ≡ none
      → TransitionChange before (r ∷ before)
  changed :
      (test : TransitionLock → Bool) (change : TransitionLock → TransitionLock)
      → ((x : TransitionLock) → SameTransition x (change x))
      → TransitionChange before (update test change before)

-- The epochs and their attempts, locks and phases are left alone.
pub record Aside (s t : Store) : Type 0 where
  pub same_epochs : t.epochs ≡ s.epochs
  pub same_attempts : t.attempts ≡ s.attempts
  pub same_locks : t.slot_locks ≡ s.slot_locks
  pub same_phases : t.phases ≡ s.phases
  pub transitions : TransitionChange s.transition_locks t.transition_locks

-- An active epoch was retired and its successor became active.
pub record Activates (s u : Store) : Type 0 where
  pub transition : EpochTransition
  pub consecutive : transition.successor_epoch ≡ transition.predecessor_epoch + 1
  pub party_id : ℕ
  pub predecessor : EpochRow
  pub found_predecessor :
      select (at_epoch transition.bid transition.predecessor_epoch) s.epochs ≡ some predecessor
  pub was_active : is_active predecessor.status ≡ true
  pub matched : matching_predecessor transition predecessor ≡ true
  pub fresh : select (at_epoch transition.bid transition.successor_epoch) s.epochs ≡ none
  pub epochs :
      u.epochs
      ≡ successor_row transition party_id
        ∷ update (at_epoch transition.bid transition.predecessor_epoch) set_retired s.epochs
  pub same_attempts : u.attempts ≡ s.attempts
  pub same_locks : u.slot_locks ≡ s.slot_locks
  pub same_phases : u.phases ≡ s.phases
  pub same_transitions : u.transition_locks ≡ s.transition_locks
