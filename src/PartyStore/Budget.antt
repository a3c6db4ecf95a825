-- ===== src/PartyStore/Budget.antt =====
-- The attempt budget of prototype/locus/party_store.py under any transactions.
use locus_v.Prelude.{
  ℕ, ◌≡◌, Bool, Option, none, some, List, ◌∷◌, refl, sym, ◌∙◌, subst, arith, Bool-cases, inl, inr,
}
use locus_v.Prelude.Eq.{nat_eq, list_eq}
use locus_v.Prelude.Lists.{count}
use locus_v.Prelude.Results.{ok}
use locus_v.Certificates.Values.{Text}
use locus_v.Certificates.Hash.{Crypto}
use locus_v.PartyStore.Tables.{Store, EpochRow, empty_store, select, update, at_epoch}
use locus_v.PartyStore.Ledger.{AttemptAuthorization, install_authorization}
use locus_v.PartyStore.Authorizations.{authorization_fields}
use locus_v.PartyStore.PhaseSteps.{PhaseStep-Quiet}
use locus_v.PartyStore.EpochSteps.{Activates}
use locus_v.PartyStore.Rows.{updated_row, select-update-some, select-update-none}
use locus_v.PartyStore.Activate.{set_retired, successor_row}
use locus_v.PartyStore.Activating.{EpochStep-cases}
use locus_v.PartyStore.Steps.{
  Step, enrolled, authorized, entry_locked, entry_voted, prepare_locked, install_voted,
  attempt_installed, authorization_recorded, phase_moved, epoch_moved, Reach, start, next,
}
use locus_v.PartyStore.Locks.{OnLocks, lock_entry-OnLocks, store_entry_vote-Voted}
use locus_v.PartyStore.Prepared.{
  lock_prepare-OnLocks, store_install_vote-OnLocks, record_authorization-OnLocks,
}
use locus_v.PartyStore.Install.{
  enroll_epoch_cases, install_authorization_cases, install_attempt-installed,
}
use locus_v.PartyStore.Accounts.{
  in_epoch, IsBudgeted, Accounts, IsLedger, same_key, same_account, moved, Enrolls-IsLedger,
  Installs-IsLedger,
}

authorized-IsLedger :
    (crypto : Crypto) (a : AttemptAuthorization) (hash : Text) (s t : Store)
    → install_authorization crypto a s ≡ ok (hash, t)
    → IsLedger s
    → IsLedger t
authorized-IsLedger crypto a hash s t e h =
    elim ((install_authorization_cases crypto a hash s t e).1) [
      | inl o ↦ subst IsLedger o h
      | inr i ↦ Installs-IsLedger a hash s t i h
    ]

updated-Accounts :
    (s : Store) (bid : Text) (epoch : ℕ) (test : EpochRow → Bool) (r : EpochRow)
    → IsBudgeted r (count (in_epoch bid epoch) s.attempts)
    → IsBudgeted (updated_row test set_retired r) (count (in_epoch bid epoch) s.attempts)
updated-Accounts s bid epoch test r h = elim (Bool-cases (test r)) [
  | inl e ↦ rw e (record { within = h.within; index = h.index; attempts = h.attempts })
  | inr e ↦ rw e h
]

retired-Accounts :
    (s : Store) (bid : Text) (epoch : ℕ) (test : EpochRow → Bool) (o : Option EpochRow)
    → select (at_epoch bid epoch) s.epochs ≡ o
    → Accounts s bid epoch o
    → Accounts s bid epoch (select (at_epoch bid epoch) (update test set_retired s.epochs))
retired-Accounts s bid epoch test none e h =
    subst (Accounts s bid epoch)
      (sym (select-update-none (at_epoch bid epoch) test set_retired s.epochs (λ x. refl) e)) h
retired-Accounts s bid epoch test (some r) e h =
    subst (Accounts s bid epoch)
      (sym (select-update-some (at_epoch bid epoch) test set_retired s.epochs r (λ x. refl) e))
      (updated-Accounts s bid epoch test r h)

-- The successor of an activation starts without attempts.
activated-Accounts :
    (s : Store) (bid : Text) (epoch : ℕ) (x : EpochRow) (rows : List EpochRow)
    → (x.consumed ≡ 0) × (x.installed_index ≡ 0)
    → select (at_epoch x.bid x.epoch) s.epochs ≡ none
    → IsLedger s
    → Accounts s bid epoch (select (at_epoch bid epoch) rows)
    → Accounts s bid epoch (select (at_epoch bid epoch) (x ∷ rows))
activated-Accounts s bid epoch x rows (c, i) free h k = elim (Bool-cases (at_epoch bid epoch x)) [
  | inl at ↦
      let (p, q) = same_key bid epoch x.bid x.epoch at in
      let none_yet : count (in_epoch bid epoch) s.attempts ≡ 0 =
        subst (Accounts s bid epoch)
          (subst (λ z. select (at_epoch z epoch) s.epochs ≡ none) p
            (subst (λ z. select (at_epoch x.bid z) s.epochs ≡ none) q free))
          (h bid epoch) in
      let found : select (at_epoch bid epoch) (x ∷ rows) ≡ some x = ground (arith, at) in
      subst (Accounts s bid epoch) (sym found)
        (record { within = omega (arith, c); index = i ∙ sym c; attempts = none_yet ∙ sym c })
  | inr at ↦
      let found : select (at_epoch bid epoch) (x ∷ rows) ≡ select (at_epoch bid epoch) rows =
        ground (arith, at) in
      subst (Accounts s bid epoch) (sym found) k
]

Activates-IsLedger : (s t : Store) → Activates s t → IsLedger s → IsLedger t
Activates-IsLedger s t x h bid epoch =
    let y = x.transition in
    same_account s t bid epoch (select (at_epoch bid epoch) t.epochs) x.same_attempts (
      subst (λ z. Accounts s bid epoch (select (at_epoch bid epoch) z)) (sym x.epochs)
        (activated-Accounts s bid epoch (successor_row y x.party_id) _ (refl, refl) x.fresh h
          (retired-Accounts s bid epoch (at_epoch y.bid y.predecessor_epoch)
            (select (at_epoch bid epoch) s.epochs) refl (h bid epoch))))

quiet-IsLedger : (s t : Store) → OnLocks s t → IsLedger s → IsLedger t
quiet-IsLedger s t x h = moved s t x.same_epochs x.same_attempts h

Step-IsLedger : (crypto : Crypto) (s t : Store) → Step crypto s t → IsLedger s → IsLedger t
Step-IsLedger crypto s t (enrolled c e) h = elim (enroll_epoch_cases crypto c s t e) [
  | inl o ↦ subst IsLedger o h
  | inr i ↦ Enrolls-IsLedger c s t i h
]
Step-IsLedger crypto s t (authorized a g e) h = authorized-IsLedger crypto a g s t e h
Step-IsLedger crypto s t (entry_locked e c g v k) h =
    quiet-IsLedger s t (lock_entry-OnLocks crypto e c g s t v k) h
Step-IsLedger crypto s t (entry_voted e g v k) h =
    quiet-IsLedger s t (store_entry_vote-Voted crypto e g s t v k).change h
Step-IsLedger crypto s t (prepare_locked p c g v k) h =
    quiet-IsLedger s t (lock_prepare-OnLocks crypto p c g s t v k) h
Step-IsLedger crypto s t (install_voted p g v k) h =
    quiet-IsLedger s t (store_install_vote-OnLocks crypto p g s t v k) h
Step-IsLedger crypto s t (attempt_installed a c e) h =
    let (_, (g, i)) = install_attempt-installed crypto a c s t e in
    authorized-IsLedger crypto (authorization_fields crypto a) g s t i h
Step-IsLedger crypto s t (authorization_recorded a k) h =
    quiet-IsLedger s t (record_authorization-OnLocks crypto a s t k) h
Step-IsLedger crypto s t (phase_moved k) h =
    let q = PhaseStep-Quiet crypto s t k in moved s t q.same_epochs q.same_attempts h
Step-IsLedger crypto s t (epoch_moved k) h = elim (EpochStep-cases crypto s t k) [
  | inl a ↦ moved s t a.same_epochs a.same_attempts h
  | inr a ↦ Activates-IsLedger s t a h
]

pub Reach-IsLedger : (crypto : Crypto) (s t : Store) → Reach crypto s t → IsLedger s → IsLedger t
Reach-IsLedger crypto s t start h = h
Reach-IsLedger crypto s t (next {t = u} r k) h =
    Step-IsLedger crypto u t k (Reach-IsLedger crypto s u r h)

-- After any of the transactions in `Step`, from an empty party store, the row of every epoch has
-- consumed exactly as many attempts as are installed in the epoch, at most its budget, and its index
-- is that number.
pub attempts-IsBudgeted :
    (crypto : Crypto) (s : Store) (bid : Text) (epoch : ℕ) (r : EpochRow)
    → Reach crypto empty_store s
    → select (at_epoch bid epoch) s.epochs ≡ some r
    → IsBudgeted r (count (in_epoch bid epoch) s.attempts)
attempts-IsBudgeted crypto s bid epoch r reach found =
    subst (Accounts s bid epoch) found
      (Reach-IsLedger crypto empty_store s reach (λ b e. refl) bid epoch)
