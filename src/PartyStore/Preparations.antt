-- ===== src/PartyStore/Preparations.antt =====
-- prepare_successor_epoch and successor_preparation of prototype/locus/party_store.py.
use locus_v.Prelude.{ℕ, Bool, not, ◌&&◌, ◌||◌, Option, none, some, List, ◌∷◌}
use locus_v.Prelude.Eq.{◌==◌, nat_eq, list_eq, option_eq}
use locus_v.Prelude.Results.{ok, ◌>>=◌, ◌>>◌, raise_if, or_raise}
use locus_v.Certificates.Values.{Text, Bytes}
use locus_v.Certificates.Hash.{Crypto}
use locus_v.Certificates.Config.{AuthorizerConfig, key_of}
use locus_v.Certificates.Votes.{AuthorizerSigner, public_key_hex}
use locus_v.Lifecycle.Transition.{EpochTransition, verify_configs, transition_hash}
use locus_v.Lifecycle.Package.{create_package, package_digest}
use locus_v.Lifecycle.Ready.{EpochReady, create_ready, ready_to_dict, ready_from_dict}
use locus_v.PartyStore.EpochTables.{
  PreparationState, awaiting, activated, RuntimeState, runtime_prepared, runtime_active,
  Preparation, RuntimeRow, at_preparation, at_runtime,
}
use locus_v.PartyStore.Tables.{
  invalid_state, conflict, integrity_error, Stored, Store, select, found, at_epoch, genesis_head,
  append_audit,
}
use locus_v.PartyStore.Ledger.{EpochConfig, validate_epoch, check_hex, check_int}
use locus_v.PartyStore.Slots.{no_bytes}
use locus_v.PartyStore.Runtime.{pass, catch, validate_runtime_components, same_runtime, runtime_row}
use locus_v.PartyStore.Successors.{require_predecessor, transition_of}

-- The row of the INSERT into epoch_preparations.
abbrev pub new_preparation : EpochTransition → Text → EpochConfig → ℕ → Bytes → Preparation
new_preparation t hash c party_id ready_bytes = record {
  bid = t.bid;
  successor_epoch = t.successor_epoch;
  predecessor_epoch = t.predecessor_epoch;
  party_id = party_id;
  transition_hash = hash;
  config_digest = c.config_digest;
  backup_digest = c.backup_digest;
  budget = c.budget;
  readiness_bytes = ready_bytes;
  state = awaiting;
  activation_certificate_hash = none;
}

-- actual == expected
abbrev pub same_preparation : Preparation → Preparation → Bool
same_preparation x y =
    x.predecessor_epoch == y.predecessor_epoch
    && x.party_id == y.party_id
    && x.transition_hash == y.transition_hash
    && x.config_digest == y.config_digest
    && x.backup_digest == y.backup_digest
    && x.budget == y.budget
    && x.readiness_bytes == y.readiness_bytes

-- `existing["state"] == "ACTIVATED" and "ACTIVE" or "PREPARED"`
abbrev pub expected_runtime : PreparationState → RuntimeState
expected_runtime activated = runtime_active
expected_runtime awaiting = runtime_prepared

-- The INSERT of a package: PRIMARY KEY (bid, epoch).
abbrev pub insert_runtime : RuntimeRow → List RuntimeRow → Stored (List RuntimeRow)
insert_runtime r rows = do
  raise_if (found (select (at_runtime r.bid r.epoch) rows)) integrity_error
  ok (r ∷ rows)

abbrev pub prepare_again :
    Crypto
    → Preparation
    → (RuntimeState → RuntimeRow)
    → Store
    → Preparation
    → Stored (EpochReady × Store)
prepare_again crypto fresh package_row s existing = do
  raise_if (not (same_preparation existing fresh)) conflict
  stored ←
      or_raise (select (at_runtime fresh.bid fresh.successor_epoch) s.runtime_packages)
        invalid_state
  raise_if (not (same_runtime stored (package_row (expected_runtime existing.state)))) conflict
  ready ← pass (ready_from_dict (crypto.loads existing.readiness_bytes))
  ok (ready, s)

abbrev pub prepare_new :
    Crypto
    → EpochTransition
    → AuthorizerSigner
    → Preparation
    → (RuntimeState → RuntimeRow)
    → EpochReady
    → Store
    → Stored (EpochReady × Store)
prepare_new crypto t signer fresh package_row ready s = do
  _ ← require_predecessor t signer s
  lock ← or_raise (select (transition_of t) s.transition_locks) invalid_state
  raise_if (not (lock.transition_hash == fresh.transition_hash) || no_bytes lock.approval_bytes)
      invalid_state
  raise_if (found (select (at_epoch t.bid t.successor_epoch) s.epochs)) conflict
  runtime ← insert_runtime (package_row runtime_prepared) s.runtime_packages
  ok (
    ready,
    record s {
      preparations = fresh ∷ s.preparations;
      runtime_packages = runtime;
      audit_events =
          append_audit crypto "EPOCH_SUCCESSOR_PREPARED" t.bid t.successor_epoch
            fresh.transition_hash s.audit_events;
    },
  )

abbrev pub prepare_epoch_over :
    Crypto
    → EpochTransition
    → AuthorizerSigner
    → Preparation
    → (RuntimeState → RuntimeRow)
    → EpochReady
    → Store
    → Option Preparation
    → Stored (EpochReady × Store)
prepare_epoch_over crypto t signer fresh package_row ready s (some existing) =
    prepare_again crypto fresh package_row s existing
prepare_epoch_over crypto t signer fresh package_row ready s none =
    prepare_new crypto t signer fresh package_row ready s

unfoldable pub prepare_successor_epoch :
    Crypto
    → EpochConfig
    → EpochTransition
    → AuthorizerConfig
    → AuthorizerConfig
    → AuthorizerSigner
    → Option Bytes
    → Option Bytes
    → Store
    → Stored (EpochReady × Store)
unfolding validate_epoch verify_configs validate_runtime_components public_key_hex create_package
    create_ready transition_hash package_digest append_audit
prepare_successor_epoch crypto c t predecessor successor signer parameters party_state s = do
  validate_epoch c
  catch (verify_configs crypto t predecessor successor)
  validate_runtime_components parameters party_state
  raise_if
      (not (c.bid == t.bid)
        || not (c.epoch == t.successor_epoch)
        || not (c.party_id == signer.party_id)
        || not (c.config_digest == t.successor_config_digest)
        || not (c.backup_digest == t.successor_backup_digest)
        || not (c.budget == t.successor_budget)
        || not (c.genesis == genesis_head)
        || not
            (key_of successor.public_keys signer.party_id == some (public_key_hex crypto signer)))
      invalid_state
  runtime ← catch (create_package crypto t successor signer.party_id parameters party_state)
  ready ← pass (create_ready crypto t runtime signer)
  hash ← pass (transition_hash crypto t)
  digest ← pass (package_digest crypto runtime)
  prepare_epoch_over crypto t signer
      (new_preparation t hash c signer.party_id (crypto.encode (ready_to_dict ready)))
      (runtime_row crypto runtime digest successor parameters party_state) ready s
      (select (at_preparation t.bid t.successor_epoch) s.preparations)

unfoldable pub successor_preparation : Text → ℕ → Store → Stored Preparation
unfolding check_hex check_int
successor_preparation bid epoch s = do
  check_hex 16 bid
  check_int epoch
  or_raise (select (at_preparation bid epoch) s.preparations) invalid_state
