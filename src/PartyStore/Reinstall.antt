-- ===== src/PartyStore/Reinstall.antt =====
-- What install_authorization and install_certificate of prototype/locus/party_store.py leave for a
-- client that calls them again.
use locus_v.Prelude.{◌≡◌, true, false, not, Option, none, some, refl, sym, ap, subst, ◌∙◌, arith}
use locus_v.Prelude.Eq.{◌==◌, nat_eq, list_eq, eq_of_beq, beq_self}
use locus_v.Prelude.Results.{ok, ◌>>=◌, ◌>>◌, raise_if, bind-ok, raise_if-ok}
use locus_v.Certificates.Values.{Text}
use locus_v.Certificates.Hash.{Crypto}
use locus_v.Certificates.Config.{AuthorizerConfig}
use locus_v.Certificates.Entry.{entry_hash, hash_entry}
use locus_v.Certificates.Authorization.{AuthorizationCertificate, verify_authorization}
use locus_v.PartyStore.Tables.{
  conflict, lift, Store, EpochRow, AttemptRow, select, at_epoch, at_session, is_active,
}
use locus_v.PartyStore.Ledger.{
  AttemptAuthorization, validate_attempt, attempt_hash, attempt_row, same_attempt, advance_row,
  install_over, require_active, install_authorization,
}
use locus_v.PartyStore.Rows.{select-here}
use locus_v.PartyStore.Accounts.{select-update_self}
use locus_v.PartyStore.Slots.{slot_of}
use locus_v.PartyStore.Authorizations.{authorization_fields, locked_otherwise, install_attempt}
use locus_v.PartyStore.Install.{install_new-Installs, require_active-some, ok_same}

same_attempt_self : (x : AttemptRow) → same_attempt x x ≡ true
same_attempt_self x = ground (
  arith,
  beq_self x.request_digest,
  beq_self x.tpass_request_hash,
  beq_self x.log_index,
  beq_self x.previous_head,
  beq_self x.entry_hash,
  beq_self x.certificate_hash,
  beq_self x.resulting_consumed,
  beq_self x.effective_budget,
)

-- The test of an attempt that is already installed, and its key, leave no freedom.
same_attempt_lem :
    (hash : Text) (a : AttemptAuthorization) (x : AttemptRow)
    → at_session a.bid a.epoch a.sid x ≡ true
    → same_attempt x (attempt_row hash a) ≡ true
    → x ≡ attempt_row hash a
same_attempt_lem hash a x key h = λ i. record {
  bid = (eq_of_beq x.bid a.bid (ground (arith, key))) i;
  epoch = (eq_of_beq x.epoch a.epoch (ground (arith, key))) i;
  sid = (eq_of_beq x.sid a.sid (ground (arith, key))) i;
  request_digest = (eq_of_beq x.request_digest a.request_digest (ground (arith, h))) i;
  tpass_request_hash = (eq_of_beq x.tpass_request_hash a.tpass_request_hash (ground (arith, h))) i;
  log_index = (eq_of_beq x.log_index a.log_index (ground (arith, h))) i;
  previous_head = (eq_of_beq x.previous_head a.previous_head (ground (arith, h))) i;
  entry_hash = (eq_of_beq x.entry_hash hash (ground (arith, h))) i;
  certificate_hash = (eq_of_beq x.certificate_hash a.certificate_hash (ground (arith, h))) i;
  resulting_consumed = (eq_of_beq x.resulting_consumed a.resulting_consumed (ground (arith, h))) i;
  effective_budget = (eq_of_beq x.effective_budget a.effective_budget (ground (arith, h))) i;
}

-- What an installation has read and left.
record Installed (crypto : Crypto) (a : AttemptAuthorization) (s t : Store) : Type 0 where
  pub valid : validate_attempt a ≡ ok tt
  pub row : EpochRow
  pub found_row : select (at_epoch a.bid a.epoch) t.epochs ≡ some row
  pub active : is_active row.status ≡ true
  pub config : row.config_digest ≡ a.config_digest
  pub recorded :
      select (at_session a.bid a.epoch a.sid) t.attempts
      ≡ some (attempt_row (attempt_hash crypto a) a)
  pub same_locks : t.slot_locks ≡ s.slot_locks

install_over-Installed :
    (crypto : Crypto) (a : AttemptAuthorization) (s t : Store) (row : EpochRow)
    (o : Option AttemptRow)
    → validate_attempt a ≡ ok tt
    → select (at_epoch a.bid a.epoch) s.epochs ≡ some row
    → is_active row.status ≡ true
    → row.config_digest ≡ a.config_digest
    → select (at_session a.bid a.epoch a.sid) s.attempts ≡ o
    → install_over crypto a (attempt_hash crypto a) s row o ≡ ok t
    → Installed crypto a s t
install_over-Installed crypto a s t row (some x) valid found_row active config q h =
    let hash = attempt_hash crypto a in
    let (equal, rest) = raise_if-ok (not (same_attempt x (attempt_row hash a))) _ _ _ h in
    subst (Installed crypto a s) (ok_same s t rest) (record {
      valid = valid;
      row = row;
      found_row = found_row;
      active = active;
      config = config;
      recorded =
          q
          ∙ ap some (
              same_attempt_lem hash a x
                (select-here (at_session a.bid a.epoch a.sid) s.attempts x q)
                (ground (arith, equal)));
      same_locks = refl;
    })
install_over-Installed crypto a s t row none valid found_row active config q h =
    let hash = attempt_hash crypto a in
    let x = install_new-Installs crypto a hash s t row found_row active config q h in
    let own : at_session a.bid a.epoch a.sid (attempt_row hash a) ≡ true =
      ground (arith, beq_self a.bid, beq_self a.epoch, beq_self a.sid) in
    record {
      valid = valid;
      row = advance_row hash a row;
      found_row =
          ap (select (at_epoch a.bid a.epoch)) x.epochs
          ∙ select-update_self a.bid a.epoch (advance_row hash a) s.epochs row (λ y. (refl, refl))
              found_row;
      active = active;
      config = config;
      recorded = ap (select (at_session a.bid a.epoch a.sid)) x.attempts ∙ ground (arith, own);
      same_locks = x.slot_locks;
    }

install_authorization-Installed :
    (crypto : Crypto) (a : AttemptAuthorization) (hash : Text) (s t : Store)
    → install_authorization crypto a s ≡ ok (hash, t)
    → Installed crypto a s t
unfolding install_authorization
install_authorization-Installed crypto a hash s t h =
    let (_, valid, h1) = bind-ok (validate_attempt a) _ _ h in
    let (row, found_row, h2) =
      bind-ok (require_active (select (at_epoch a.bid a.epoch) s.epochs)) _ _ h1 in
    let (config, h3) = raise_if-ok (not (row.config_digest == a.config_digest)) _ _ _ h2 in
    let (u, over, rest) =
      bind-ok
        (install_over crypto a (attempt_hash crypto a) s row
          (select (at_session a.bid a.epoch a.sid) s.attempts))
        _ _ h3 in
    let (at, on) = require_active-some _ row found_row in
    subst (Installed crypto a s) (ap (λ x. x.1) (ok_same _ _ rest)) (
      install_over-Installed crypto a s u row (select (at_session a.bid a.epoch a.sid) s.attempts)
        valid at on (eq_of_beq row.config_digest a.config_digest (ground (arith, config))) refl
        over)

-- An attempt that is installed is installed again without a change.
Installed-again :
    (crypto : Crypto) (a : AttemptAuthorization) (s t : Store)
    → Installed crypto a s t
    → install_authorization crypto a t ≡ ok (attempt_hash crypto a, t)
unfolding install_authorization
Installed-again crypto a s t x =
    let config : (x.row.config_digest == a.config_digest) ≡ true =
      subst (λ z. (x.row.config_digest == z) ≡ true) x.config (beq_self x.row.config_digest) in
    rw x.valid (
      rw x.found_row (
        rw x.active (
          rw config
            (rw x.recorded (rw (same_attempt_self (attempt_row (attempt_hash crypto a) a)) refl)))))

attempt_hash-hash_entry :
    (crypto : Crypto) (a : AuthorizationCertificate)
    → attempt_hash crypto (authorization_fields crypto a) ≡ hash_entry crypto a.prepare.entry
unfolding attempt_hash
attempt_hash-hash_entry crypto a = refl

-- The first transaction of install_certificate, when it returns, leaves the attempt of its session
-- recorded with the hash that attempt_certificates.py gives the entry, and the same transaction with
-- the same certificate then returns again and changes nothing.
pub install_attempt-again :
    (crypto : Crypto) (a : AuthorizationCertificate) (c : AuthorizerConfig) (s t : Store)
    → install_attempt crypto a c s ≡ ok t
    → (select (at_session a.prepare.entry.bid a.prepare.entry.epoch a.prepare.entry.sid) t.attempts
        ≡ some (attempt_row (hash_entry crypto a.prepare.entry) (authorization_fields crypto a)))
      × (install_attempt crypto a c t ≡ ok t)
unfolding install_attempt
install_attempt-again crypto a c s t h =
    let f = authorization_fields crypto a in
    let e = a.prepare.entry in
    let (_, verified, h1) = bind-ok (lift (verify_authorization crypto a c)) _ _ h in
    let (_, valid, h2) = bind-ok (validate_attempt f) _ _ h1 in
    let (hash, hashed, h3) = bind-ok (lift (entry_hash crypto e)) _ _ h2 in
    let (free, h4) =
      raise_if-ok (locked_otherwise hash (select (slot_of e) s.slot_locks)) _ _ _ h3 in
    let ((g, u), installed, rest) = bind-ok (install_authorization crypto f s) _ _ h4 in
    let o : u ≡ t = ok_same u t rest in
    let x =
      subst (Installed crypto f s) o (install_authorization-Installed crypto f g s u installed) in
    let still : locked_otherwise hash (select (slot_of e) t.slot_locks) ≡ false =
      ap (λ z. locked_otherwise hash (select (slot_of e) z)) x.same_locks ∙ free in
    (
      subst (λ z. select (at_session e.bid e.epoch e.sid) t.attempts ≡ some (attempt_row z f))
          (attempt_hash-hash_entry crypto a) x.recorded,
      subst
          (λ z.
            (lift (verify_authorization crypto a c)
              >> (validate_attempt f
                  >> (lift (entry_hash crypto e) >>= λ h.
                      raise_if (locked_otherwise h (select (slot_of e) t.slot_locks)) conflict
                      >> (z >>= λ p. ok p.1))))
            ≡ ok t)
          (sym (Installed-again crypto f s t x))
          (rw verified (rw valid (rw hashed (rw still refl)))),
    )
