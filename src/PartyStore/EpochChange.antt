-- ===== src/PartyStore/EpochChange.antt =====
-- What the transactions of prototype/locus/party_store.py do to the table of epochs.
use locus_v.Prelude.{◌≡◌, arith, inl, inr}
use locus_v.Prelude.Results.{ok}
use locus_v.Certificates.Values.{Text}
use locus_v.Certificates.Hash.{Crypto}
use locus_v.PartyStore.Tables.{Store}
use locus_v.PartyStore.Ledger.{
  EpochConfig, AttemptAuthorization, attempt_hash, install_authorization,
}
use locus_v.PartyStore.Authorizations.{authorization_fields}
use locus_v.PartyStore.PhaseSteps.{PhaseStep-Quiet}
use locus_v.PartyStore.EpochSteps.{Activates}
use locus_v.PartyStore.Activating.{EpochStep-cases}
use locus_v.PartyStore.Steps.{
  Step, enrolled, authorized, entry_locked, entry_voted, prepare_locked, install_voted,
  attempt_installed, authorization_recorded, phase_moved, epoch_moved,
}
use locus_v.PartyStore.Locks.{OnLocks, lock_entry-OnLocks, store_entry_vote-Voted}
use locus_v.PartyStore.Prepared.{
  lock_prepare-OnLocks, store_install_vote-OnLocks, record_authorization-OnLocks,
}
use locus_v.PartyStore.Install.{
  Enrolls, Installs, enroll_epoch_cases, install_authorization_cases, install_attempt-installed,
}

pub data EpochChange (crypto : Crypto) (s t : Store) : Type 0 where
  unchanged : t.epochs ≡ s.epochs → t.attempts ≡ s.attempts → EpochChange crypto s t
  first : (c : EpochConfig) → Enrolls c s t → EpochChange crypto s t
  advanced :
      (a : AttemptAuthorization) (hash : Text)
      → attempt_hash crypto a ≡ hash
      → Installs a hash s t
      → EpochChange crypto s t
  succeeded : Activates s t → EpochChange crypto s t

install-EpochChange :
    (crypto : Crypto) (g : Text) (s t : Store) (a : AttemptAuthorization)
    → install_authorization crypto a s ≡ ok (g, t)
    → EpochChange crypto s t
install-EpochChange crypto g s t a e =
    let (hashed, cases) = install_authorization_cases crypto a g s t e in
    elim cases [
      | inl o ↦ unchanged (ground (arith, o)) (ground (arith, o))
      | inr i ↦ advanced a g hashed i
    ]

OnLocks-EpochChange : (crypto : Crypto) (s t : Store) → OnLocks s t → EpochChange crypto s t
OnLocks-EpochChange crypto s t h = unchanged h.same_epochs h.same_attempts

pub Step-EpochChange : (crypto : Crypto) (s t : Store) → Step crypto s t → EpochChange crypto s t
Step-EpochChange crypto s t (enrolled c e) = elim (enroll_epoch_cases crypto c s t e) [
  | inl o ↦ unchanged (ground (arith, o)) (ground (arith, o))
  | inr i ↦ first c i
]
Step-EpochChange crypto s t (authorized a g e) = install-EpochChange crypto g s t a e
Step-EpochChange crypto s t (entry_locked e c g v k) =
    OnLocks-EpochChange crypto s t (lock_entry-OnLocks crypto e c g s t v k)
Step-EpochChange crypto s t (entry_voted e g v k) =
    OnLocks-EpochChange crypto s t (store_entry_vote-Voted crypto e g s t v k).change
Step-EpochChange crypto s t (prepare_locked p c g v k) =
    OnLocks-EpochChange crypto s t (lock_prepare-OnLocks crypto p c g s t v k)
Step-EpochChange crypto s t (install_voted p g v k) =
    OnLocks-EpochChange crypto s t (store_install_vote-OnLocks crypto p g s t v k)
Step-EpochChange crypto s t (attempt_installed a c e) =
    let (_, (g, i)) = install_attempt-installed crypto a c s t e in
    install-EpochChange crypto g s t (authorization_fields crypto a) i
Step-EpochChange crypto s t (authorization_recorded a k) =
    OnLocks-EpochChange crypto s t (record_authorization-OnLocks crypto a s t k)
Step-EpochChange crypto s t (phase_moved k) =
    let q = PhaseStep-Quiet crypto s t k in unchanged q.same_epochs q.same_attempts
Step-EpochChange crypto s t (epoch_moved k) = elim (EpochStep-cases crypto s t k) [
  | inl a ↦ unchanged a.same_epochs a.same_attempts
  | inr a ↦ succeeded a
]
