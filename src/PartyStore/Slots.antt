-- ===== src/PartyStore/Slots.antt =====
-- create_entry_vote and create_install_vote of prototype/locus/party_store.py. Each runs two transactions,
-- between which others may run: each is a function of its own, and the method is their composition.
use locus_v.Prelude.{◌+◌, Bool, true, false, not, ◌||◌, Option, none, some}
use locus_v.Prelude.Eq.{◌==◌, nat_eq, list_eq, option_eq}
use locus_v.Prelude.Results.{ok, ◌>>=◌, ◌>>◌, raise_if, or_raise}
use locus_v.Certificates.Values.{Text, Bytes}
use locus_v.Certificates.Hash.{Crypto}
use locus_v.Certificates.Config.{AuthorizerConfig, validate_config, config_digest}
use locus_v.Certificates.Entry.{AttemptEntry, validate_entry, entry_hash, entry_to_dict}
use locus_v.Certificates.Votes.{
  Vote, AuthorizerSigner, entry_kind, install_kind, vote_to_dict, vote_from_dict,
}
use locus_v.Certificates.Prepare.{
  PrepareCertificate, create_entry_vote, verify_prepare, prepare_to_dict, prepare_hash,
}
use locus_v.Certificates.Authorization.{create_install_vote}
use locus_v.PartyStore.Tables.{
  voted, prepared, install_voted, invalid_state, conflict, Stored, lift, EpochRow, SlotLock, Store,
  select, update, at_epoch, at_slot, insert_lock, append_audit,
}
use locus_v.PartyStore.Ledger.{require_active}

abbrev pub slot_of : AttemptEntry → SlotLock → Bool
slot_of e r = at_slot e.bid e.epoch e.log_index r

-- The row of the first INSERT into slot_locks.
abbrev pub new_lock : Crypto → AttemptEntry → Text → SlotLock
new_lock crypto e hash = record {
  bid = e.bid;
  epoch = e.epoch;
  log_index = e.log_index;
  sid = e.sid;
  entry_hash = hash;
  entry_bytes = crypto.encode (entry_to_dict e);
  entry_vote_bytes = none;
  prepare_hash = none;
  prepare_bytes = none;
  install_vote_bytes = none;
  authorization_bytes = none;
  state = voted;
}

abbrev pub read_vote : Crypto → Option Bytes → Stored (Option Vote)
read_vote crypto none = ok none
read_vote crypto (some bytes) = do
  v ← lift (vote_from_dict entry_kind (crypto.loads bytes))
  ok (some v)

abbrev pub lock_over :
    Crypto → AttemptEntry → Text → Store → EpochRow → Option SlotLock → Stored (Option Vote × Store)
lock_over crypto e hash s epoch (some existing) = do
  raise_if (not (existing.entry_hash == hash)) conflict
  v ← read_vote crypto existing.entry_vote_bytes
  ok (v, s)
lock_over crypto e hash s epoch none = do
  raise_if (not (e.log_index == epoch.installed_index + 1)) invalid_state
  raise_if (not (e.previous_head == epoch.installed_head)) invalid_state
  raise_if (not (e.resulting_consumed == epoch.consumed + 1)) invalid_state
  raise_if (not (e.effective_budget == epoch.budget)) invalid_state
  locks ← insert_lock (new_lock crypto e hash) s.slot_locks
  ok (
    none,
    record s {
      slot_locks = locks;
      audit_events = append_audit crypto "ENTRY_VOTE_LOCKED" e.bid e.epoch hash s.audit_events;
    },
  )

-- The first transaction of create_entry_vote: a vote that was stored before, or a lock.
unfoldable pub lock_entry :
    Crypto
    → AttemptEntry
    → AuthorizerConfig
    → AuthorizerSigner
    → Store
    → Stored (Option Vote × Store)
unfolding validate_entry validate_config config_digest entry_hash append_audit vote_from_dict
lock_entry crypto e config signer s = do
  lift (validate_entry e)
  lift (validate_config config)
  d ← lift (config_digest crypto config)
  raise_if
      (not (e.bid == config.bid) || not (e.epoch == config.epoch) || not (e.config_digest == d))
      invalid_state
  epoch ← require_active (select (at_epoch e.bid e.epoch) s.epochs)
  raise_if (not (epoch.party_id == signer.party_id)) invalid_state
  raise_if (not (epoch.config_digest == d)) invalid_state
  hash ← lift (entry_hash crypto e)
  lock_over crypto e hash s epoch (select (slot_of e) s.slot_locks)

abbrev pub set_entry_vote : Bytes → SlotLock → SlotLock
set_entry_vote bytes r = record r { entry_vote_bytes = some bytes }

-- `stored` is the vote that the row holds.
abbrev pub keep_entry_vote : AttemptEntry → Bytes → Store → Option Bytes → Stored Store
keep_entry_vote e bytes s (some stored) = do raise_if (not (stored == bytes)) conflict; ok s
keep_entry_vote e bytes s none =
    ok (record s { slot_locks = update (slot_of e) (set_entry_vote bytes) s.slot_locks })

-- The second transaction of create_entry_vote, after the vote was signed.
unfoldable pub store_entry_vote :
    Crypto → AttemptEntry → AuthorizerSigner → Store → Stored (Vote × Store)
unfolding create_entry_vote entry_hash
store_entry_vote crypto e signer s = do
  vote ← lift (create_entry_vote crypto e signer)
  row ← or_raise (select (slot_of e) s.slot_locks) conflict
  hash ← lift (entry_hash crypto e)
  raise_if (not (row.entry_hash == hash)) conflict
  t ← keep_entry_vote e (crypto.encode (vote_to_dict entry_kind vote)) s row.entry_vote_bytes
  ok (vote, t)

abbrev pub read_install_vote : Crypto → Option Bytes → Stored (Option Vote)
read_install_vote crypto none = ok none
read_install_vote crypto (some bytes) = do
  v ← lift (vote_from_dict install_kind (crypto.loads bytes))
  ok (some v)

-- lock["prepare_hash"] not in {None, prepare.certificate_hash}
abbrev pub other_prepare : Text → Option Text → Bool
other_prepare hash none = false
other_prepare hash (some h) = not (h == hash)

abbrev pub no_bytes : Option Bytes → Bool
no_bytes none = true
no_bytes (some b) = false

abbrev pub set_prepare : Crypto → PrepareCertificate → SlotLock → SlotLock
set_prepare crypto p r = record r {
  prepare_hash = some (prepare_hash crypto p);
  prepare_bytes = some (crypto.encode (prepare_to_dict p));
  state = prepared;
}

-- `vote` is the install vote that the lock holds.
abbrev pub prepare_over :
    Crypto → PrepareCertificate → Store → Option Vote → Stored (Option Vote × Store)
prepare_over crypto p s (some vote) = ok (some vote, s)
prepare_over crypto p s none = ok (
  none,
  record s {
    slot_locks = update (slot_of p.entry) (set_prepare crypto p) s.slot_locks;
    audit_events =
        append_audit crypto "PREPARE_CERTIFICATE_STORED" p.entry.bid p.entry.epoch
          (prepare_hash crypto p) s.audit_events;
  },
)

-- The first transaction of create_install_vote.
unfoldable pub lock_prepare :
    Crypto
    → PrepareCertificate
    → AuthorizerConfig
    → AuthorizerSigner
    → Store
    → Stored (Option Vote × Store)
unfolding verify_prepare config_digest entry_hash prepare_hash append_audit vote_from_dict
lock_prepare crypto p config signer s = do
  lift (verify_prepare crypto p config)
  d ← lift (config_digest crypto config)
  epoch ← require_active (select (at_epoch p.entry.bid p.entry.epoch) s.epochs)
  raise_if (not (epoch.party_id == signer.party_id) || not (epoch.config_digest == d)) invalid_state
  lock ← or_raise (select (slot_of p.entry) s.slot_locks) conflict
  hash ← lift (entry_hash crypto p.entry)
  raise_if (not (lock.entry_hash == hash) || no_bytes lock.entry_vote_bytes) conflict
  raise_if (other_prepare (prepare_hash crypto p) lock.prepare_hash) conflict
  vote ← read_install_vote crypto lock.install_vote_bytes
  prepare_over crypto p s vote

abbrev pub set_install_vote : Bytes → SlotLock → SlotLock
set_install_vote bytes r = record r { install_vote_bytes = some bytes; state = install_voted }

abbrev pub keep_install_vote : AttemptEntry → Bytes → Store → Option Bytes → Stored Store
keep_install_vote e bytes s (some stored) = do raise_if (not (stored == bytes)) conflict; ok s
keep_install_vote e bytes s none =
    ok (record s { slot_locks = update (slot_of e) (set_install_vote bytes) s.slot_locks })

-- The second transaction of create_install_vote.
unfoldable pub store_install_vote :
    Crypto → PrepareCertificate → AuthorizerSigner → Store → Stored (Vote × Store)
unfolding create_install_vote prepare_hash
store_install_vote crypto p signer s = do
  row ← or_raise (select (slot_of p.entry) s.slot_locks) conflict
  raise_if (not (row.prepare_hash == some (prepare_hash crypto p))) conflict
  t ←
      keep_install_vote p.entry
        (crypto.encode (vote_to_dict install_kind (create_install_vote crypto p signer))) s
        row.install_vote_bytes
  ok (create_install_vote crypto p signer, t)
