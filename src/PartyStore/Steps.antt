-- ===== src/PartyStore/Steps.antt =====
-- The transactions of a party store as a step relation, and what they leave alone.
use locus_v.Prelude.{◌≡◌, Option}
use locus_v.Prelude.Eq.{nat_eq, list_eq, option_eq}
use locus_v.Prelude.Results.{ok}
use locus_v.Certificates.Values.{Text}
use locus_v.Certificates.Hash.{Crypto}
use locus_v.Certificates.Config.{AuthorizerConfig}
use locus_v.Certificates.Entry.{AttemptEntry}
use locus_v.Certificates.Votes.{Vote, AuthorizerSigner}
use locus_v.Certificates.Prepare.{PrepareCertificate}
use locus_v.Certificates.Authorization.{AuthorizationCertificate}
use locus_v.PartyStore.Tables.{Store}
use locus_v.PartyStore.Ledger.{
  EpochConfig, enroll_epoch, AttemptAuthorization, install_authorization,
}
use locus_v.PartyStore.Slots.{lock_entry, store_entry_vote, lock_prepare, store_install_vote}
use locus_v.PartyStore.Authorizations.{install_attempt, record_authorization}
use locus_v.PartyStore.PhaseSteps.{PhaseStep}
use locus_v.PartyStore.EpochSteps.{EpochStep}

-- A transaction that was committed.
pub data Step (crypto : Crypto) (s : Store) : Store → Type 0 where
  enrolled : {t : Store} (c : EpochConfig) → enroll_epoch crypto c s ≡ ok t → Step crypto s t
  authorized :
      {t : Store} (a : AttemptAuthorization) (h : Text)
      → install_authorization crypto a s ≡ ok (h, t)
      → Step crypto s t
  entry_locked :
      {t : Store} (e : AttemptEntry) (c : AuthorizerConfig) (g : AuthorizerSigner) (v : Option Vote)
      → lock_entry crypto e c g s ≡ ok (v, t)
      → Step crypto s t
  entry_voted :
      {t : Store} (e : AttemptEntry) (g : AuthorizerSigner) (v : Vote)
      → store_entry_vote crypto e g s ≡ ok (v, t)
      → Step crypto s t
  prepare_locked :
      {t : Store} (p : PrepareCertificate) (c : AuthorizerConfig) (g : AuthorizerSigner)
      (v : Option Vote)
      → lock_prepare crypto p c g s ≡ ok (v, t)
      → Step crypto s t
  install_voted :
      {t : Store} (p : PrepareCertificate) (g : AuthorizerSigner) (v : Vote)
      → store_install_vote crypto p g s ≡ ok (v, t)
      → Step crypto s t
  attempt_installed :
      {t : Store} (a : AuthorizationCertificate) (c : AuthorizerConfig)
      → install_attempt crypto a c s ≡ ok t
      → Step crypto s t
  authorization_recorded :
      {t : Store} (a : AuthorizationCertificate)
      → record_authorization crypto a s ≡ ok t
      → Step crypto s t
  phase_moved : {t : Store} → PhaseStep crypto s t → Step crypto s t
  epoch_moved : {t : Store} → EpochStep crypto s t → Step crypto s t

pub data Reach (crypto : Crypto) (s : Store) : Store → Type 0 where
  start : Reach crypto s s
  next : {t u : Store} → Reach crypto s t → Step crypto t u → Reach crypto s u

pub Reach-trans :
    (crypto : Crypto) (s t u : Store) → Reach crypto s t → Reach crypto t u → Reach crypto s u
Reach-trans crypto s t u a start = a
Reach-trans crypto s t u a (next {t = v} b k) = next (Reach-trans crypto s t v a b) k
