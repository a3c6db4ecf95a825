-- ===== src/PartyStore/Install.antt =====
-- What enroll_epoch and install_authorization of prototype/locus/party_store.py do to the tables.
use locus_v.Prelude.{
  ◌+◌, ◌≤◌, ◌≡◌, not, ◌||◌, Option, none, some, ◌∷◌, refl, sym, ap, subst, arith, ltb, inl, inr,
  ◌⊎◌, true, false,
}
use locus_v.Prelude.Eq.{◌==◌, nat_eq, list_eq, eq_of_beq}
use locus_v.Prelude.Results.{ok, bind-ok, raise_if-ok}
use locus_v.Certificates.Values.{Text}
use locus_v.Certificates.Hash.{Crypto}
use locus_v.Certificates.Config.{AuthorizerConfig}
use locus_v.Certificates.Entry.{entry_hash}
use locus_v.Certificates.Authorization.{AuthorizationCertificate, verify_authorization}
use locus_v.PartyStore.Tables.{
  Stored, lift, Store, EpochRow, AttemptRow, select, update, found, at_epoch, at_session, at_index,
  insert_attempt, is_active,
}
use locus_v.PartyStore.Ledger.{
  EpochConfig, validate_epoch, of_backup, differs, first_row, enroll_over, enroll_epoch,
  AttemptAuthorization, validate_attempt, attempt_hash, attempt_row, same_attempt, advance_row,
  install_new, install_over, require_active, install_authorization,
}
use locus_v.PartyStore.Locks.{lift-ok}
use locus_v.PartyStore.Slots.{slot_of}
use locus_v.PartyStore.Authorizations.{authorization_fields, locked_otherwise, install_attempt}

-- The first epoch of a backup was enrolled.
pub record Enrolls (c : EpochConfig) (s t : Store) : Type 0 where
  pub genesis : c.epoch ≡ 1
  pub fresh : select (at_epoch c.bid c.epoch) s.epochs ≡ none
  pub first : found (select (of_backup c.bid) s.epochs) ≡ false
  pub epochs : t.epochs ≡ first_row c ∷ s.epochs
  pub attempts : t.attempts ≡ s.attempts
  pub slot_locks : t.slot_locks ≡ s.slot_locks
  pub phases : t.phases ≡ s.phases
  pub transitions : t.transition_locks ≡ s.transition_locks

-- An attempt was installed over the row of its epoch.
pub record Installs (a : AttemptAuthorization) (hash : Text) (s t : Store) : Type 0 where
  pub row : EpochRow
  pub found_row : select (at_epoch a.bid a.epoch) s.epochs ≡ some row
  pub active : is_active row.status ≡ true
  pub config : row.config_digest ≡ a.config_digest
  pub consumed : a.resulting_consumed ≡ row.consumed + 1
  pub index : a.log_index ≡ row.installed_index + 1
  pub within : a.resulting_consumed ≤ row.budget
  pub head : a.previous_head ≡ row.installed_head
  pub fresh : select (at_session a.bid a.epoch a.sid) s.attempts ≡ none
  pub epochs : t.epochs ≡ update (at_epoch a.bid a.epoch) (advance_row hash a) s.epochs
  pub attempts : t.attempts ≡ attempt_row hash a ∷ s.attempts
  pub slot_locks : t.slot_locks ≡ s.slot_locks
  pub phases : t.phases ≡ s.phases
  pub transitions : t.transition_locks ≡ s.transition_locks

pub ok_same : {A : Type 0} (a b : A) → ◌≡◌ {A = Stored A} (ok a) (ok b) → a ≡ b
ok_same a b h = cc

enroll_over_cases :
    (crypto : Crypto) (c : EpochConfig) (s t : Store) (o : Option EpochRow)
    → select (at_epoch c.bid c.epoch) s.epochs ≡ o
    → enroll_over crypto c s o ≡ ok t
    → (s ≡ t) ⊎ Enrolls c s t
enroll_over_cases crypto c s t (some existing) q h =
    let (_, rest) = raise_if-ok (differs c existing) _ _ _ h in inl (ok_same s t rest)
enroll_over_cases crypto c s t none q h =
    let (first, rest) =
      raise_if-ok (not (c.epoch == 1) || found (select (of_backup c.bid) s.epochs)) _ _ _ h in
    let o = ok_same _ t rest in
    inr (
      subst (Enrolls c s) o (record {
        genesis = eq_of_beq c.epoch 1 (ground (arith, first));
        fresh = q;
        first = ground (arith, first);
        epochs = refl;
        attempts = refl;
        slot_locks = refl;
        phases = refl;
        transitions = refl;
      }))

pub enroll_epoch_cases :
    (crypto : Crypto) (c : EpochConfig) (s t : Store)
    → enroll_epoch crypto c s ≡ ok t
    → (s ≡ t) ⊎ Enrolls c s t
unfolding enroll_epoch
enroll_epoch_cases crypto c s t h =
    let (_, _, h1) = bind-ok (validate_epoch c) _ _ h in
    enroll_over_cases crypto c s t (select (at_epoch c.bid c.epoch) s.epochs) refl h1

pub install_new-Installs :
    (crypto : Crypto) (a : AttemptAuthorization) (hash : Text) (s t : Store) (row : EpochRow)
    → select (at_epoch a.bid a.epoch) s.epochs ≡ some row
    → is_active row.status ≡ true
    → row.config_digest ≡ a.config_digest
    → select (at_session a.bid a.epoch a.sid) s.attempts ≡ none
    → install_new crypto a hash s row ≡ ok t
    → Installs a hash s t
install_new-Installs crypto a hash s t row q live config fresh h =
    let (budget, h1) = raise_if-ok (not (a.effective_budget == row.budget)) _ _ _ h in
    let (within, h2) = raise_if-ok (ltb a.effective_budget a.resulting_consumed) _ _ _ h1 in
    let (index, h3) = raise_if-ok (not (a.log_index == row.installed_index + 1)) _ _ _ h2 in
    let (head, h4) = raise_if-ok (not (a.previous_head == row.installed_head)) _ _ _ h3 in
    let (consumed, h5) = raise_if-ok (not (a.resulting_consumed == row.consumed + 1)) _ _ _ h4 in
    let (attempts, put, h6) = bind-ok (insert_attempt (attempt_row hash a) s.attempts) _ _ h5 in
    let (_, put1) =
      raise_if-ok
        (found (select (at_session a.bid a.epoch a.sid) s.attempts)
          || found (select (at_index a.bid a.epoch a.log_index) s.attempts))
        _ _ _ put in
    let inserted : attempt_row hash a ∷ s.attempts ≡ attempts = ok_same _ _ put1 in
    subst (Installs a hash s) (ok_same _ t h6) (record {
      row = row;
      found_row = q;
      active = live;
      config = config;
      consumed = ground (arith, consumed);
      index = ground (arith, index);
      within = ground (arith, budget, within);
      head = eq_of_beq a.previous_head row.installed_head (ground (arith, head));
      fresh = fresh;
      epochs = refl;
      attempts = sym inserted;
      slot_locks = refl;
      phases = refl;
      transitions = refl;
    })

install_over_cases :
    (crypto : Crypto) (a : AttemptAuthorization) (hash : Text) (s t : Store) (row : EpochRow)
    (o : Option AttemptRow)
    → select (at_epoch a.bid a.epoch) s.epochs ≡ some row
    → is_active row.status ≡ true
    → row.config_digest ≡ a.config_digest
    → select (at_session a.bid a.epoch a.sid) s.attempts ≡ o
    → install_over crypto a hash s row o ≡ ok t
    → (s ≡ t) ⊎ Installs a hash s t
install_over_cases crypto a hash s t row (some existing) q live config k h =
    let (_, rest) = raise_if-ok (not (same_attempt existing (attempt_row hash a))) _ _ _ h in
    inl (ok_same s t rest)
install_over_cases crypto a hash s t row none q live config k h =
    inr (install_new-Installs crypto a hash s t row q live config k h)

pub require_active-some :
    (o : Option EpochRow) (row : EpochRow)
    → require_active o ≡ ok row
    → (o ≡ some row) × (is_active row.status ≡ true)
require_active-some none row h = absurd (cc)
require_active-some (some r) row h =
    let (live, rest) = raise_if-ok (not (is_active r.status)) _ _ _ h in
    let same = ok_same r row rest in
    (ap some same, subst (λ x. is_active x.status ≡ true) same (ground (arith, live)))

pub install_authorization_cases :
    (crypto : Crypto) (a : AttemptAuthorization) (hash : Text) (s t : Store)
    → install_authorization crypto a s ≡ ok (hash, t)
    → (attempt_hash crypto a ≡ hash) × ((s ≡ t) ⊎ Installs a hash s t)
unfolding install_authorization
install_authorization_cases crypto a hash s t h =
    let (_, _, h1) = bind-ok (validate_attempt a) _ _ h in
    let (row, active, h2) =
      bind-ok (require_active (select (at_epoch a.bid a.epoch) s.epochs)) _ _ h1 in
    let (config, h3) = raise_if-ok (not (row.config_digest == a.config_digest)) _ _ _ h2 in
    let (u, over, rest) =
      bind-ok
        (install_over crypto a (attempt_hash crypto a) s row
          (select (at_session a.bid a.epoch a.sid) s.attempts))
        _ _ h3 in
    let same_config = eq_of_beq row.config_digest a.config_digest (ground (arith, config)) in
    let e : (attempt_hash crypto a, u) ≡ (hash, t) = ok_same _ _ rest in
    let p : attempt_hash crypto a ≡ hash = ap (λ x. x.0) e in
    let o : u ≡ t = ap (λ x. x.1) e in
    (
      p,
      subst (λ x. (s ≡ x) ⊎ Installs a hash s x) o
          (subst (λ x. (s ≡ u) ⊎ Installs a x s u) p
            (install_over_cases crypto a (attempt_hash crypto a) s u row
              (select (at_session a.bid a.epoch a.sid) s.attempts)
              (require_active-some _ row active).0 (require_active-some _ row active).1 same_config
              refl over)),
    )

-- install_certificate installs the attempt that its certificate authorizes.
pub install_attempt-installed :
    (crypto : Crypto) (a : AuthorizationCertificate) (c : AuthorizerConfig) (s t : Store)
    → install_attempt crypto a c s ≡ ok t
    → (verify_authorization crypto a c ≡ ok tt)
      × ((hash : Text) × (install_authorization crypto (authorization_fields crypto a) s
            ≡ ok (hash, t)))
unfolding install_attempt
install_attempt-installed crypto a c s t h =
    let (_, verified, h1) = bind-ok (lift (verify_authorization crypto a c)) _ _ h in
    let (_, _, h2) = bind-ok (validate_attempt (authorization_fields crypto a)) _ _ h1 in
    let (hash, _, h3) = bind-ok (lift (entry_hash crypto a.prepare.entry)) _ _ h2 in
    let (_, h4) =
      raise_if-ok (locked_otherwise hash (select (slot_of a.prepare.entry) s.slot_locks)) _ _ _
        h3 in
    let ((g, u), installed, rest) =
      bind-ok (install_authorization crypto (authorization_fields crypto a) s) _ _ h4 in
    let o : u ≡ t = ok_same u t rest in
    (
      lift-ok (verify_authorization crypto a c) tt verified,
      (
        g,
        subst (λ x. install_authorization crypto (authorization_fields crypto a) s ≡ ok (g, x)) o
            installed,
      ),
    )
