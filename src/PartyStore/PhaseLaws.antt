-- ===== src/PartyStore/PhaseLaws.antt =====
-- The phases of prototype/locus/party_store.py under any transactions.
use locus_v.Prelude.{
  Bool, true, some, List, [], ◌∷◌, ◌≡◌, ◌⊎◌, refl, sym, ap, subst, ◌∙◌, Bool-cases, inl, inr,
}
use locus_v.Prelude.Eq.{nat_eq, list_eq}
use locus_v.Prelude.Lists.{All}
use locus_v.Prelude.Results.{ok}
use locus_v.Certificates.Values.{Text}
use locus_v.Certificates.Hash.{Crypto}
use locus_v.PartyStore.Tables.{Store, AttemptRow, PhaseRow, empty_store, select, found, at_session}
use locus_v.PartyStore.Ledger.{AttemptAuthorization, install_authorization}
use locus_v.PartyStore.Authorizations.{authorization_fields}
use locus_v.PartyStore.Phases.{at_phase}
use locus_v.PartyStore.PhaseChange.{Forward, Forward-refl, Forward-trans}
use locus_v.PartyStore.PhaseTable.{HasAttempt, IsPhases, change-IsPhases, change-Forward}
use locus_v.PartyStore.PhaseSteps.{PhaseStep, PhaseStep-OnPhases}
use locus_v.PartyStore.Activating.{EpochStep-cases}
use locus_v.PartyStore.Steps.{
  Step, enrolled, authorized, entry_locked, entry_voted, prepare_locked, install_voted,
  attempt_installed, authorization_recorded, phase_moved, epoch_moved, Reach, start, next,
}
use locus_v.PartyStore.Locks.{OnLocks, lock_entry-OnLocks, store_entry_vote-Voted}
use locus_v.PartyStore.Prepared.{
  lock_prepare-OnLocks, store_install_vote-OnLocks, record_authorization-OnLocks,
}
use locus_v.PartyStore.Install.{
  enroll_epoch_cases, install_authorization_cases, install_attempt-installed,
}

-- The attempts only grow and the phases stay.
record Still (s t : Store) : Type 0 where
  pub phases : t.phases ≡ s.phases
  pub attempts : (r : PhaseRow) → HasAttempt s.attempts r → HasAttempt t.attempts r

still : (s t : Store) → t.phases ≡ s.phases → t.attempts ≡ s.attempts → Still s t
still s t p a = record { phases = p; attempts = λ r h. subst (λ z. HasAttempt z r) (sym a) h }

found-add :
    (test : AttemptRow → Bool) (row : AttemptRow) (rows : List AttemptRow)
    → found (select test rows) ≡ true
    → found (select test (row ∷ rows)) ≡ true
found-add test row rows h = elim (Bool-cases (test row)) [ inl e ↦ rw e refl | inr e ↦ rw e h ]

installs-Still :
    (crypto : Crypto) (g : Text) (s t : Store) (a : AttemptAuthorization)
    → install_authorization crypto a s ≡ ok (g, t)
    → Still s t
installs-Still crypto g s t a e = elim ((install_authorization_cases crypto a g s t e).1) [
  | inl o ↦ subst (Still s) o (still s s refl refl)
  | inr i ↦ record {
    phases = i.phases;
    attempts = λ r h.
        subst (λ z. HasAttempt z r) (sym i.attempts)
          (found-add (at_session r.bid r.epoch r.sid) _ s.attempts h);
  }
]

OnLocks-Still : (s t : Store) → OnLocks s t → Still s t
OnLocks-Still s t h = still s t h.same_phases h.same_attempts

-- A step leaves the phases, or changes them in the way of a transaction on phases.
Step-Still : (crypto : Crypto) (s t : Store) → Step crypto s t → Still s t ⊎ PhaseStep crypto s t
Step-Still crypto s t (enrolled c e) = elim (enroll_epoch_cases crypto c s t e) [
  | inl o ↦ inl (subst (Still s) o (still s s refl refl))
  | inr i ↦ inl (still s t i.phases i.attempts)
]
Step-Still crypto s t (authorized a g e) = inl (installs-Still crypto g s t a e)
Step-Still crypto s t (entry_locked e c g v k) =
    inl (OnLocks-Still s t (lock_entry-OnLocks crypto e c g s t v k))
Step-Still crypto s t (entry_voted e g v k) =
    inl (OnLocks-Still s t (store_entry_vote-Voted crypto e g s t v k).change)
Step-Still crypto s t (prepare_locked p c g v k) =
    inl (OnLocks-Still s t (lock_prepare-OnLocks crypto p c g s t v k))
Step-Still crypto s t (install_voted p g v k) =
    inl (OnLocks-Still s t (store_install_vote-OnLocks crypto p g s t v k))
Step-Still crypto s t (attempt_installed a c e) =
    let (_, (g, i)) = install_attempt-installed crypto a c s t e in
    inl (installs-Still crypto g s t (authorization_fields crypto a) i)
Step-Still crypto s t (authorization_recorded a k) =
    inl (OnLocks-Still s t (record_authorization-OnLocks crypto a s t k))
Step-Still crypto s t (phase_moved k) = inr k
Step-Still crypto s t (epoch_moved k) = elim (EpochStep-cases crypto s t k) [
  | inl a ↦ inl (still s t a.same_phases a.same_attempts)
  | inr a ↦ inl (still s t a.same_phases a.same_attempts)
]

pub All-mono {κ λ'} :
    {A : Type 0} (P : A → Type κ) (Q : A → Type λ') (rows : List A)
    → ((x : A) → P x → Q x)
    → All P rows
    → All Q rows
All-mono P Q [] f h = tt
All-mono P Q (x ∷ rows) f (p, ps) = (f x p, All-mono P Q rows f ps)

Step-IsPhases :
    (crypto : Crypto) (s t : Store)
    → Step crypto s t
    → IsPhases s.attempts s.phases
    → IsPhases t.attempts t.phases
Step-IsPhases crypto s t k h = elim (Step-Still crypto s t k) [
  | inl e ↦ subst (IsPhases t.attempts) (sym e.phases) (record {
    identifiers = h.identifiers;
    scopes = h.scopes;
    authorized =
        All-mono (HasAttempt s.attempts) (HasAttempt t.attempts) s.phases e.attempts h.authorized;
  })
  | inr p ↦
      let o = PhaseStep-OnPhases crypto s t h.identifiers p in
      subst (λ a. IsPhases a t.phases) (sym o.same_attempts)
        (change-IsPhases s.attempts s.phases t.phases o.change h)
]

Step-Forward :
    (crypto : Crypto) (s t : Store) (id : Text) (x : PhaseRow)
    → Step crypto s t
    → IsPhases s.attempts s.phases
    → select (at_phase id) s.phases ≡ some x
    → (y : PhaseRow) × (select (at_phase id) t.phases ≡ some y) × Forward x y
Step-Forward crypto s t id x k h at = elim (Step-Still crypto s t k) [
  | inl e ↦ (x, ap (select (at_phase id)) e.phases ∙ at, Forward-refl x)
  | inr p ↦
      change-Forward s.attempts s.phases t.phases id x
        (PhaseStep-OnPhases crypto s t h.identifiers p).change at
]

pub Reach-IsPhases :
    (crypto : Crypto) (s t : Store)
    → Reach crypto s t
    → IsPhases s.attempts s.phases
    → IsPhases t.attempts t.phases
Reach-IsPhases crypto s t start h = h
Reach-IsPhases crypto s t (next {t = u} r k) h =
    Step-IsPhases crypto u t k (Reach-IsPhases crypto s u r h)

-- A phase of a store that transactions of `Step` made from an empty one is, after any more of them,
-- still the phase of its identifier: its session, party and digests are the same, its state is not earlier,
-- its commitment does not change once stored, and a phase that has its response or is lost does not
-- change at all.
pub phase-Forward :
    (crypto : Crypto) (s t : Store) (id : Text) (x : PhaseRow)
    → Reach crypto empty_store s
    → Reach crypto s t
    → select (at_phase id) s.phases ≡ some x
    → (y : PhaseRow) × (select (at_phase id) t.phases ≡ some y) × Forward x y
phase-Forward crypto s t id x before start h = (x, h, Forward-refl x)
phase-Forward crypto s t id x before (next {t = u} r k) h =
    let (y, at, first) = phase-Forward crypto s u id x before r h in
    let known = Reach-IsPhases crypto s u r (
      Reach-IsPhases crypto empty_store s before
        (record { identifiers = tt; scopes = tt; authorized = tt })) in
    let (z, later, second) = Step-Forward crypto u t id y k known at in
    (z, later, Forward-trans x y z first second)
