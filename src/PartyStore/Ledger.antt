-- ===== src/PartyStore/Ledger.antt =====
-- EpochConfig, AttemptAuthorization, enroll_epoch, install_authorization and status of
-- prototype/locus/party_store.py. A transaction that raises leaves the store as it was.
use locus_v.Prelude.{ℕ, ◌+◌, Bool, not, ◌&&◌, ◌||◌, Option, none, some, [], ◌∷◌, ltb}
use locus_v.Prelude.Eq.{◌==◌, nat_eq, list_eq}
use locus_v.Prelude.Results.{ok, raise, ◌>>=◌, ◌>>◌, raise_if, or_raise}
use locus_v.Certificates.Values.{Text, Value, integer, string, object, last, member, codes, is_hex}
use locus_v.Certificates.Hash.{Crypto, hash_bytes, to_hex}
use locus_v.PartyStore.Tables.{
  active, invalid_state, conflict, budget_exhausted, Stored, EpochRow, AttemptRow, Store, is_active,
  select, update, found, at_epoch, at_session, insert_attempt, append_audit,
}

-- _hex and _exact_int
unfoldable pub check_hex : ℕ → Text → Stored (Unit {0})
check_hex bytes_length value = raise_if (not (is_hex bytes_length value)) invalid_state

unfoldable pub check_int : ℕ → Stored (Unit {0})
check_int value = raise_if (ltb value 1 || ltb 9223372036854775807 value) invalid_state

pub record EpochConfig : Type 0 where
  pub bid : Text
  pub epoch : ℕ
  pub party_id : ℕ
  pub config_digest : Text
  pub backup_digest : Text
  pub budget : ℕ
  pub genesis : Text

unfoldable pub validate_epoch : EpochConfig → Stored (Unit {0})
unfolding check_hex check_int
validate_epoch c = do
  check_hex 16 c.bid
  check_int c.epoch
  check_int c.party_id
  raise_if (ltb 255 c.party_id) invalid_state
  check_hex 32 c.config_digest
  check_hex 32 c.backup_digest
  check_int c.budget
  check_hex 32 c.genesis

abbrev pub of_backup : Text → EpochRow → Bool
of_backup bid r = r.bid == bid

abbrev pub differs : EpochConfig → EpochRow → Bool
differs c r =
    not (r.party_id == c.party_id)
    || not (r.config_digest == c.config_digest)
    || not (r.backup_digest == c.backup_digest)
    || not (r.budget == c.budget)
    || (r.installed_index == 0 && not (r.installed_head == c.genesis))

abbrev pub first_row : EpochConfig → EpochRow
first_row c = record {
  bid = c.bid;
  epoch = c.epoch;
  party_id = c.party_id;
  config_digest = c.config_digest;
  backup_digest = c.backup_digest;
  budget = c.budget;
  consumed = 0;
  installed_index = 0;
  installed_head = c.genesis;
  status = active;
}

-- `existing` is the row of the epoch.
abbrev pub enroll_over : Crypto → EpochConfig → Store → Option EpochRow → Stored Store
enroll_over crypto c s (some existing) = do raise_if (differs c existing) conflict; ok s
enroll_over crypto c s none = do
  raise_if (not (c.epoch == 1) || found (select (of_backup c.bid) s.epochs)) invalid_state
  ok (record s {
    epochs = first_row c ∷ s.epochs;
    audit_events =
        append_audit crypto "EPOCH_ENROLLED" c.bid c.epoch c.config_digest s.audit_events;
  })

unfoldable pub enroll_epoch : Crypto → EpochConfig → Store → Stored Store
unfolding validate_epoch append_audit
enroll_epoch crypto c s = do
  validate_epoch c
  enroll_over crypto c s (select (at_epoch c.bid c.epoch) s.epochs)

pub record AttemptAuthorization : Type 0 where
  pub bid : Text
  pub epoch : ℕ
  pub config_digest : Text
  pub log_index : ℕ
  pub previous_head : Text
  pub sid : Text
  pub request_digest : Text
  pub tpass_request_hash : Text
  pub resulting_consumed : ℕ
  pub effective_budget : ℕ
  pub certificate_hash : Text

unfoldable pub validate_attempt : AttemptAuthorization → Stored (Unit {0})
unfolding check_hex check_int
validate_attempt a = do
  check_hex 16 a.bid
  check_int a.epoch
  check_hex 32 a.config_digest
  check_int a.log_index
  check_hex 32 a.previous_head
  check_hex 32 a.sid
  check_hex 32 a.request_digest
  check_hex 32 a.tpass_request_hash
  check_int a.resulting_consumed
  check_int a.effective_budget
  check_hex 32 a.certificate_hash

abbrev pub attempt_value : AttemptAuthorization → Value
attempt_value a = object (
    member "bid" (string a.bid) (
      member "config_digest" (string a.config_digest) (
        member "effective_budget" (integer a.effective_budget) (
          member "epoch" (integer a.epoch) (
            member "log_index" (integer a.log_index) (
              member "previous_head" (string a.previous_head) (
                member "request_digest" (string a.request_digest) (
                  member "resulting_consumed" (integer a.resulting_consumed) (
                    member "sid" (string a.sid) (
                      member "tpass_request_hash" (string a.tpass_request_hash) (
                        member "type" (string (codes "ATTEMPT")) (
                          member "version" (string (codes "LOCUS-attempt-entry-v1"))
                            last))))))))))))

-- AttemptAuthorization.entry_hash
unfoldable pub attempt_hash : Crypto → AttemptAuthorization → Text
unfolding hash_bytes to_hex
attempt_hash crypto a =
    to_hex (hash_bytes crypto "LOCUS/attempt-entry/v1" (crypto.encode (attempt_value a) ∷ []))

abbrev pub attempt_row : Text → AttemptAuthorization → AttemptRow
attempt_row entry_hash a = record {
  bid = a.bid;
  epoch = a.epoch;
  sid = a.sid;
  request_digest = a.request_digest;
  tpass_request_hash = a.tpass_request_hash;
  log_index = a.log_index;
  previous_head = a.previous_head;
  entry_hash = entry_hash;
  certificate_hash = a.certificate_hash;
  resulting_consumed = a.resulting_consumed;
  effective_budget = a.effective_budget;
}

-- actual == expected
abbrev pub same_attempt : AttemptRow → AttemptRow → Bool
same_attempt x y =
    x.request_digest == y.request_digest
    && x.tpass_request_hash == y.tpass_request_hash
    && x.log_index == y.log_index
    && x.previous_head == y.previous_head
    && x.entry_hash == y.entry_hash
    && x.certificate_hash == y.certificate_hash
    && x.resulting_consumed == y.resulting_consumed
    && x.effective_budget == y.effective_budget

-- UPDATE epochs SET consumed, installed_index, installed_head
abbrev pub advance_row : Text → AttemptAuthorization → EpochRow → EpochRow
advance_row entry_hash a r = record r {
  consumed = a.resulting_consumed;
  installed_index = a.log_index;
  installed_head = entry_hash;
}

-- The steps for a session that has no attempt yet.
abbrev pub install_new : Crypto → AttemptAuthorization → Text → Store → EpochRow → Stored Store
install_new crypto a entry_hash s epoch = do
  raise_if (not (a.effective_budget == epoch.budget)) invalid_state
  raise_if (ltb a.effective_budget a.resulting_consumed) budget_exhausted
  raise_if (not (a.log_index == epoch.installed_index + 1)) invalid_state
  raise_if (not (a.previous_head == epoch.installed_head)) invalid_state
  raise_if (not (a.resulting_consumed == epoch.consumed + 1)) invalid_state
  attempts ← insert_attempt (attempt_row entry_hash a) s.attempts
  ok (record s {
    attempts = attempts;
    epochs = update (at_epoch a.bid a.epoch) (advance_row entry_hash a) s.epochs;
    audit_events =
        append_audit crypto "ATTEMPT_AUTHORIZATION_INSTALLED" a.bid a.epoch a.request_digest
          s.audit_events;
  })

abbrev pub install_over :
    Crypto → AttemptAuthorization → Text → Store → EpochRow → Option AttemptRow → Stored Store
install_over crypto a entry_hash s epoch (some existing) = do
  raise_if (not (same_attempt existing (attempt_row entry_hash a))) conflict
  ok s
install_over crypto a entry_hash s epoch none = install_new crypto a entry_hash s epoch

-- `epoch is None or epoch["status"] != "ACTIVE"`
abbrev pub require_active : Option EpochRow → Stored EpochRow
require_active none = raise invalid_state
require_active (some r) = do raise_if (not (is_active r.status)) invalid_state; ok r

unfoldable pub install_authorization : Crypto → AttemptAuthorization → Store → Stored (Text × Store)
unfolding validate_attempt attempt_hash append_audit
install_authorization crypto a s = do
  validate_attempt a
  epoch ← require_active (select (at_epoch a.bid a.epoch) s.epochs)
  raise_if (not (epoch.config_digest == a.config_digest)) invalid_state
  t ←
      install_over crypto a (attempt_hash crypto a) s epoch
        (select (at_session a.bid a.epoch a.sid) s.attempts)
  ok (attempt_hash crypto a, t)

-- status: the row of the epoch.
unfoldable pub status : Text → ℕ → Store → Stored EpochRow
unfolding check_hex check_int
status bid epoch s = do
  check_hex 16 bid
  check_int epoch
  or_raise (select (at_epoch bid epoch) s.epochs) invalid_state
