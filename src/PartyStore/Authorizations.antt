-- ===== src/PartyStore/Authorizations.antt =====
-- install_certificate, next_slot_lock and installed_certificate of prototype/locus/party_store.py. The
-- first runs two transactions, each of them a function.
use locus_v.Prelude.{ℕ, ◌+◌, Bool, true, false, not, ◌&&◌, Option, none, some}
use locus_v.Prelude.Eq.{◌==◌, nat_eq, list_eq, option_eq}
use locus_v.Prelude.Results.{ok, ◌>>=◌, ◌>>◌, raise_if}
use locus_v.Certificates.Values.{Text, Bytes}
use locus_v.Certificates.Hash.{Crypto}
use locus_v.Certificates.Config.{AuthorizerConfig}
use locus_v.Certificates.Entry.{entry_hash}
use locus_v.Certificates.Prepare.{prepare_to_dict, prepare_hash}
use locus_v.Certificates.Authorization.{
  AuthorizationCertificate, verify_authorization, authorization_to_dict, authorization_from_dict,
  authorization_hash,
}
use locus_v.PartyStore.Tables.{
  LockState, installed, conflict, Stored, lift, SlotLock, Store, select, update, at_slot,
  lock_session, insert_lock,
}
use locus_v.PartyStore.Ledger.{
  check_hex, check_int, AttemptAuthorization, validate_attempt, install_authorization, status,
}
use locus_v.PartyStore.Slots.{new_lock, slot_of}

-- authorization_fields
abbrev pub authorization_fields : Crypto → AuthorizationCertificate → AttemptAuthorization
authorization_fields crypto a =
    let e = a.prepare.entry in
    record {
      bid = e.bid;
      epoch = e.epoch;
      config_digest = e.config_digest;
      log_index = e.log_index;
      previous_head = e.previous_head;
      sid = e.sid;
      request_digest = e.request_digest;
      tpass_request_hash = e.tpass_request_hash;
      resulting_consumed = e.resulting_consumed;
      effective_budget = e.effective_budget;
      certificate_hash = authorization_hash crypto a;
    }

abbrev pub installed_lock : Crypto → AuthorizationCertificate → Text → SlotLock
installed_lock crypto a hash = record (new_lock crypto a.prepare.entry hash) {
  prepare_hash = some (prepare_hash crypto a.prepare);
  prepare_bytes = some (crypto.encode (prepare_to_dict a.prepare));
  authorization_bytes = some (crypto.encode (authorization_to_dict a));
  state = installed;
}

abbrev pub set_authorization : Crypto → AuthorizationCertificate → SlotLock → SlotLock
set_authorization crypto a r = record r {
  authorization_bytes = some (crypto.encode (authorization_to_dict a));
  state = installed;
}

-- lock is not None and lock["entry_hash"] != entry.entry_hash
abbrev pub locked_otherwise : Text → Option SlotLock → Bool
locked_otherwise hash none = false
locked_otherwise hash (some lock) = not (lock.entry_hash == hash)

-- The checks and the first transaction of install_certificate.
unfoldable pub install_attempt :
    Crypto → AuthorizationCertificate → AuthorizerConfig → Store → Stored Store
unfolding verify_authorization validate_attempt authorization_hash install_authorization entry_hash
install_attempt crypto a config s = do
  lift (verify_authorization crypto a config)
  validate_attempt (authorization_fields crypto a)
  hash ← lift (entry_hash crypto a.prepare.entry)
  raise_if (locked_otherwise hash (select (slot_of a.prepare.entry) s.slot_locks)) conflict
  (installed_hash, t) ← install_authorization crypto (authorization_fields crypto a) s
  ok t

abbrev pub record_over :
    Crypto → AuthorizationCertificate → Text → Store → Option SlotLock → Stored Store
record_over crypto a hash s none = do
  locks ← insert_lock (installed_lock crypto a hash) s.slot_locks
  ok (record s { slot_locks = locks })
record_over crypto a hash s (some lock) = ok (record s {
  slot_locks = update (slot_of a.prepare.entry) (set_authorization crypto a) s.slot_locks;
})

-- The second transaction of install_certificate.
unfoldable pub record_authorization : Crypto → AuthorizationCertificate → Store → Stored Store
unfolding entry_hash prepare_hash
record_authorization crypto a s = do
  hash ← lift (entry_hash crypto a.prepare.entry)
  record_over crypto a hash s (select (slot_of a.prepare.entry) s.slot_locks)

abbrev pub is_installed : LockState → Bool
is_installed installed = true
is_installed _ = false

abbrev pub hash_of_lock : Option SlotLock → Option Text
hash_of_lock none = none
hash_of_lock (some lock) = some lock.entry_hash

unfoldable pub next_slot_lock : Text → ℕ → Store → Stored (Option Text)
unfolding status
next_slot_lock bid epoch s = do
  row ← status bid epoch s
  ok (
      hash_of_lock (
        select (λ r. at_slot bid epoch (row.installed_index + 1) r && not (is_installed r.state))
          s.slot_locks))

abbrev pub stored_authorization : Option SlotLock → Option Bytes
stored_authorization none = none
stored_authorization (some lock) = lock.authorization_bytes

abbrev pub read_authorization : Crypto → Option Bytes → Stored (Option AuthorizationCertificate)
read_authorization crypto none = ok none
read_authorization crypto (some bytes) = do
  a ← lift (authorization_from_dict (crypto.loads bytes))
  ok (some a)

unfoldable pub installed_certificate :
    Crypto → Text → ℕ → Text → Store → Stored (Option AuthorizationCertificate)
unfolding check_hex check_int authorization_from_dict
installed_certificate crypto bid epoch sid s = do
  check_hex 16 bid
  check_int epoch
  check_hex 32 sid
  read_authorization crypto (
      stored_authorization
        (select (λ r. lock_session bid epoch sid r && is_installed r.state) s.slot_locks))
