-- ===== src/PartyStore/Activate.antt =====
-- activate_successor_epoch of prototype/locus/party_store.py.
use locus_v.Prelude.{ℕ, Bool, true, false, not, ◌&&◌, Option, none, some, ◌∷◌, if◌then◌else◌}
use locus_v.Prelude.Eq.{◌==◌, nat_eq, list_eq, option_eq}
use locus_v.Prelude.Results.{ok, ◌>>=◌, ◌>>◌, raise_if, or_raise}
use locus_v.Certificates.Values.{Text}
use locus_v.Certificates.Hash.{Crypto}
use locus_v.Certificates.Config.{AuthorizerConfig}
use locus_v.Lifecycle.Transition.{EpochTransition, transition_hash}
use locus_v.Lifecycle.Ready.{EpochReady, ready_from_dict}
use locus_v.Lifecycle.Activation.{EpochActivationCertificate, verify_activation, activation_hash}
use locus_v.PartyStore.EpochTables.{
  PreparationState, awaiting, activated, runtime_active, runtime_retired, TransitionLock,
  Preparation, RuntimeRow, at_preparation, at_runtime,
}
use locus_v.PartyStore.Tables.{
  EpochStatus, active, retired, conflict, Stored, EpochRow, Store, is_active, select, update, found,
  at_epoch, genesis_head, append_audit,
}
use locus_v.PartyStore.Runtime.{pass, catch, runtime_code}
use locus_v.PartyStore.Successors.{matching_predecessor, transition_of}

abbrev pub is_retired : EpochStatus → Bool
is_retired retired = true
is_retired _ = false

abbrev pub is_activated : PreparationState → Bool
is_activated activated = true
is_activated awaiting = false

-- The rows that the transaction reads.
pub record EpochState : Type 0 where
  pub predecessor : Option EpochRow
  pub successor : Option EpochRow
  pub preparation : Option Preparation
  pub runtime_package : Option RuntimeRow
  pub lifecycle_lock : Option TransitionLock

abbrev pub epoch_state : EpochTransition → Store → EpochState
epoch_state t s = record {
  predecessor = select (at_epoch t.bid t.predecessor_epoch) s.epochs;
  successor = select (at_epoch t.bid t.successor_epoch) s.epochs;
  preparation = select (at_preparation t.bid t.successor_epoch) s.preparations;
  runtime_package = select (at_runtime t.bid t.successor_epoch) s.runtime_packages;
  lifecycle_lock = select (transition_of t) s.transition_locks;
}

-- `row is not None and test(row)`
abbrev pub holds : {A : Type 0} → (A → Bool) → Option A → Bool
holds test none = false
holds test (some row) = test row

-- The activation has been done before.
abbrev pub is_done : Text → EpochState → Bool
is_done hash e =
    holds (λ (r : EpochRow). is_active r.status) e.successor
    && holds (λ (r : EpochRow). is_retired r.status) e.predecessor
    && holds
        (λ (r : Preparation). is_activated r.state && r.activation_certificate_hash == some hash)
        e.preparation
    && holds (λ (r : RuntimeRow). runtime_code r.state == 1) e.runtime_package

abbrev pub read_local_ready : Crypto → Option Preparation → Stored (Option EpochReady)
read_local_ready crypto none = ok none
read_local_ready crypto (some r) = do
  ready ← pass (ready_from_dict (crypto.loads r.readiness_bytes))
  ok (some ready)

abbrev pub prepares : EpochTransition → Text → Preparation → Bool
prepares t hash r =
    not (is_activated r.state)
    && r.transition_hash == hash
    && r.config_digest == t.successor_config_digest
    && r.backup_digest == t.successor_backup_digest
    && r.budget == t.successor_budget

-- The rows and the party's readiness match the activation.
abbrev pub is_ready : EpochTransition → Text → Option EpochReady → EpochState → Bool
is_ready t hash ready e =
    holds (λ (r : EpochRow). is_active r.status && matching_predecessor t r) e.predecessor
    && not (found e.successor)
    && holds (prepares t hash) e.preparation
    && holds
        (λ (r : RuntimeRow).
          runtime_code r.state == 0
          && holds (λ (l : EpochReady). r.package_digest == l.runtime_package_digest) ready)
        e.runtime_package
    && holds (λ (r : TransitionLock). r.transition_hash == hash) e.lifecycle_lock

abbrev pub set_retired : EpochRow → EpochRow
set_retired r = record r { status = retired }

-- The row of the INSERT into epochs.
abbrev pub successor_row : EpochTransition → ℕ → EpochRow
successor_row t party_id = record {
  bid = t.bid;
  epoch = t.successor_epoch;
  party_id = party_id;
  config_digest = t.successor_config_digest;
  backup_digest = t.successor_backup_digest;
  budget = t.successor_budget;
  consumed = 0;
  installed_index = 0;
  installed_head = genesis_head;
  status = active;
}

-- UPDATE epoch_runtime_packages, of a package in the state with the code `from`.
abbrev pub of_package : Text → ℕ → ℕ → RuntimeRow → Bool
of_package bid epoch from r = at_runtime bid epoch r && runtime_code r.state == from

abbrev pub retire_package : RuntimeRow → RuntimeRow
retire_package r = record r { state = runtime_retired }

abbrev pub activate_package : RuntimeRow → RuntimeRow
activate_package r = record r { state = runtime_active }

abbrev pub set_activated : Text → Preparation → Preparation
set_activated hash r = record r { state = activated; activation_certificate_hash = some hash }

-- The statements that write, when the rows match; `party_id` is the preparation's.
abbrev pub activate_rows : Crypto → EpochTransition → Text → Text → ℕ → Store → Store
activate_rows crypto t transition_hash certificate_hash party_id s = record s {
  epochs =
      successor_row t party_id ∷ update (at_epoch t.bid t.predecessor_epoch) set_retired s.epochs;
  runtime_packages =
      update (of_package t.bid t.successor_epoch 0) activate_package
        (update (of_package t.bid t.predecessor_epoch 1) retire_package s.runtime_packages);
  preparations =
      update (at_preparation t.bid t.successor_epoch) (set_activated certificate_hash)
        s.preparations;
  audit_events = append_audit crypto "EPOCH_ACTIVATED" t.bid t.successor_epoch certificate_hash (
      append_audit crypto "EPOCH_RETIRED" t.bid t.predecessor_epoch transition_hash s.audit_events);
}

abbrev pub activate_new : Crypto → EpochTransition → Text → EpochState → Store → Stored Store
activate_new crypto t certificate_hash e s = do
  ready ← read_local_ready crypto e.preparation
  hash ← pass (transition_hash crypto t)
  raise_if (not (is_ready t hash ready e)) conflict
  prepared ← or_raise e.preparation conflict
  ok (activate_rows crypto t hash certificate_hash prepared.party_id s)

unfoldable pub activate_successor_epoch :
    Crypto
    → EpochActivationCertificate
    → AuthorizerConfig
    → AuthorizerConfig
    → Store
    → Stored (Text × Store)
unfolding verify_activation activation_hash transition_hash ready_from_dict append_audit
activate_successor_epoch crypto c predecessor successor s = do
  catch (verify_activation crypto c predecessor successor)
  let t = c.transition
  let hash = activation_hash crypto c
  u ←
      if is_done hash (epoch_state t s)
      then ok s
      else activate_new crypto t hash (epoch_state t s) s
  ok (hash, u)
