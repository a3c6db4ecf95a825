-- ===== src/PartyStore/Tables.antt =====
-- The tables of PartyStore in prototype/locus/party_store.py, and the statements it runs on them.
-- A table lists its rows, the newest first; the rows of an UPDATE keep their places.
use Prim.Native.String.{String}
use locus_v.Prelude.{
  ℕ, zero, suc, Bool, true, false, ◌&&◌, ◌||◌, Option, none, some, List, [], ◌∷◌, if◌then◌else◌,
}
use locus_v.Prelude.Eq.{◌==◌, nat_eq, list_eq, option_eq}
use locus_v.Prelude.Results.{Result, ok, raise, ◌>>◌, raise_if}
use locus_v.Certificates.Values.{
  Text, Bytes, Value, integer, string, object, last, member, CertificateError, codes,
}
use locus_v.Certificates.Hash.{Crypto, hash_bytes, to_hex}
use locus_v.Lifecycle.Values.{LifecycleError}
use locus_v.PartyStore.EpochTables.{TransitionLock, Preparation, RuntimeRow}

pub data EpochStatus : Type 0 where
  active retired failed_closed : EpochStatus

pub data LockState : Type 0 where
  voted prepared install_voted installed : LockState

pub data PhaseState : Type 0 where
  intent commitment_stored responded lost : PhaseState

-- PartyStoreError with its subclasses, sqlite3.IntegrityError, and CertificateError.
pub data StoreError : Type 0 where
  invalid_state conflict budget_exhausted session_lost request_in_progress integrity_error :
      StoreError
  certificate_error : CertificateError → StoreError
  lifecycle_error : LifecycleError → StoreError

abbrev pub Stored : Type 0 → Type 0
Stored A = Result StoreError A

-- An error of the certificates passes through.
abbrev pub lift : {A : Type 0} → Result CertificateError A → Stored A
lift (ok a) = ok a
lift (raise e) = raise (certificate_error e)

pub record EpochRow : Type 0 where
  pub bid : Text
  pub epoch : ℕ
  pub party_id : ℕ
  pub config_digest : Text
  pub backup_digest : Text
  pub budget : ℕ
  pub consumed : ℕ
  pub installed_index : ℕ
  pub installed_head : Text
  pub status : EpochStatus

pub record AttemptRow : Type 0 where
  pub bid : Text
  pub epoch : ℕ
  pub sid : Text
  pub request_digest : Text
  pub tpass_request_hash : Text
  pub log_index : ℕ
  pub previous_head : Text
  pub entry_hash : Text
  pub certificate_hash : Text
  pub resulting_consumed : ℕ
  pub effective_budget : ℕ

pub record SlotLock : Type 0 where
  pub bid : Text
  pub epoch : ℕ
  pub log_index : ℕ
  pub sid : Text
  pub entry_hash : Text
  pub entry_bytes : Bytes
  pub entry_vote_bytes : Option Bytes
  pub prepare_hash : Option Text
  pub prepare_bytes : Option Bytes
  pub install_vote_bytes : Option Bytes
  pub authorization_bytes : Option Bytes
  pub state : LockState

pub record AuditEvent : Type 0 where
  pub event_type : String
  pub bid : Text
  pub epoch : ℕ
  pub subject_digest : Text
  pub previous_event_hash : Text
  pub event_hash : Text

pub record PhaseRow : Type 0 where
  pub bid : Text
  pub epoch : ℕ
  pub sid : Text
  pub party_id : ℕ
  pub phase_instance_id : Text
  pub selected_digest : Text
  pub freshness_digest : Text
  pub state : PhaseState
  pub commitment : Option Bytes
  pub response : Option Bytes

pub record FreshnessRow : Type 0 where
  pub freshness_request_hash : Text
  pub authorizer_id : ℕ
  pub request_bytes : Bytes
  pub vote_bytes : Bytes

pub record Store : Type 0 where
  pub epochs : List EpochRow
  pub attempts : List AttemptRow
  pub slot_locks : List SlotLock
  pub phases : List PhaseRow
  pub freshness_votes : List FreshnessRow
  pub transition_locks : List TransitionLock
  pub preparations : List Preparation
  pub runtime_packages : List RuntimeRow
  pub audit_events : List AuditEvent

abbrev pub empty_store : Store
empty_store = record {
  epochs = [];
  attempts = [];
  slot_locks = [];
  phases = [];
  freshness_votes = [];
  transition_locks = [];
  preparations = [];
  runtime_packages = [];
  audit_events = [];
}

abbrev pub is_active : EpochStatus → Bool
is_active active = true
is_active _ = false

module _ {A : Type 0} where
  -- SELECT ... WHERE test, fetchone()
  abbrev pub select : (A → Bool) → List A → Option A
  select test [] = none
  select test (row ∷ rows) = let older = select test rows in if test row then some row else older

  -- UPDATE ... SET change WHERE test
  abbrev pub update : (A → Bool) → (A → A) → List A → List A
  update test change [] = []
  update test change (row ∷ rows) = (if test row then change row else row) ∷ update test change rows

  abbrev pub found : Option A → Bool
  found none = false
  found (some row) = true

abbrev pub at_epoch : Text → ℕ → EpochRow → Bool
at_epoch bid epoch r = r.bid == bid && r.epoch == epoch

abbrev pub at_session : Text → ℕ → Text → AttemptRow → Bool
at_session bid epoch sid r = r.bid == bid && r.epoch == epoch && r.sid == sid

abbrev pub at_index : Text → ℕ → ℕ → AttemptRow → Bool
at_index bid epoch log_index r = r.bid == bid && r.epoch == epoch && r.log_index == log_index

abbrev pub at_slot : Text → ℕ → ℕ → SlotLock → Bool
at_slot bid epoch log_index r = r.bid == bid && r.epoch == epoch && r.log_index == log_index

abbrev pub lock_session : Text → ℕ → Text → SlotLock → Bool
lock_session bid epoch sid r = r.bid == bid && r.epoch == epoch && r.sid == sid

-- The INSERT of an attempt: PRIMARY KEY (bid, epoch, sid), UNIQUE (bid, epoch, log_index).
abbrev pub insert_attempt : AttemptRow → List AttemptRow → Stored (List AttemptRow)
insert_attempt r rows = do
  raise_if
      (found (select (at_session r.bid r.epoch r.sid) rows)
        || found (select (at_index r.bid r.epoch r.log_index) rows))
      conflict
  ok (r ∷ rows)

-- The INSERT of a lock: PRIMARY KEY (bid, epoch, log_index), UNIQUE (bid, epoch, sid).
abbrev pub insert_lock : SlotLock → List SlotLock → Stored (List SlotLock)
insert_lock r rows = do
  raise_if
      (found (select (at_slot r.bid r.epoch r.log_index) rows)
        || found (select (lock_session r.bid r.epoch r.sid) rows))
      integrity_error
  ok (r ∷ rows)

abbrev pub zeros : ℕ → Text
zeros zero = []
zeros (suc n) = 48 ∷ zeros n

-- GENESIS_HEAD = "0" * 64
abbrev pub genesis_head : Text
genesis_head = zeros 64

abbrev pub last_event_hash : List AuditEvent → Text
last_event_hash [] = genesis_head
last_event_hash (e ∷ es) = e.event_hash

abbrev pub audit_value : String → Text → ℕ → Text → Text → Value
audit_value event_type bid epoch subject_digest previous = object (
    member "bid" (string bid) (
      member "epoch" (integer epoch) (
        member "event_type" (string (codes event_type)) (
          member "previous_event_hash" (string previous)
            (member "subject_digest" (string subject_digest) last)))))

unfoldable pub event_hash : Crypto → String → Text → ℕ → Text → Text → Text
unfolding hash_bytes to_hex
event_hash crypto event_type bid epoch subject_digest previous = to_hex (
    hash_bytes crypto "LOCUS/audit-event/v1"
      (crypto.encode (audit_value event_type bid epoch subject_digest previous) ∷ []))

-- _append_audit
unfoldable pub append_audit : Crypto → String → Text → ℕ → Text → List AuditEvent → List AuditEvent
unfolding event_hash
append_audit crypto event_type bid epoch subject_digest events =
    let previous = last_event_hash events in
    (record {
      event_type = event_type;
      bid = bid;
      epoch = epoch;
      subject_digest = subject_digest;
      previous_event_hash = previous;
      event_hash = event_hash crypto event_type bid epoch subject_digest previous;
    })
    ∷ events
