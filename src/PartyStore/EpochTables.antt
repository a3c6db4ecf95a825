-- ===== src/PartyStore/EpochTables.antt =====
-- The tables of successor epochs in prototype/locus/party_store.py: epoch_transition_locks,
-- epoch_preparations and epoch_runtime_packages.
use locus_v.Prelude.{ℕ, Bool, ◌&&◌, Option}
use locus_v.Prelude.Eq.{◌==◌, nat_eq, list_eq}
use locus_v.Certificates.Values.{Text, Bytes}

pub data PreparationState : Type 0 where
  awaiting activated : PreparationState

pub data RuntimeState : Type 0 where
  runtime_prepared runtime_active runtime_retired : RuntimeState

pub record TransitionLock : Type 0 where
  pub bid : Text
  pub predecessor_epoch : ℕ
  pub transition_hash : Text
  pub transition_bytes : Bytes
  pub approval_bytes : Option Bytes

pub record Preparation : Type 0 where
  pub bid : Text
  pub successor_epoch : ℕ
  pub predecessor_epoch : ℕ
  pub party_id : ℕ
  pub transition_hash : Text
  pub config_digest : Text
  pub backup_digest : Text
  pub budget : ℕ
  pub readiness_bytes : Bytes
  pub state : PreparationState
  pub activation_certificate_hash : Option Text

pub record RuntimeRow : Type 0 where
  pub bid : Text
  pub epoch : ℕ
  pub party_id : ℕ
  pub package_digest : Text
  pub descriptor_bytes : Bytes
  pub authorizer_config_bytes : Bytes
  pub parameters_bytes : Option Bytes
  pub party_state_bytes : Option Bytes
  pub state : RuntimeState

-- The primary keys.
abbrev pub at_transition : Text → ℕ → TransitionLock → Bool
at_transition bid predecessor r = r.bid == bid && r.predecessor_epoch == predecessor

abbrev pub at_preparation : Text → ℕ → Preparation → Bool
at_preparation bid successor r = r.bid == bid && r.successor_epoch == successor

abbrev pub at_runtime : Text → ℕ → RuntimeRow → Bool
at_runtime bid epoch r = r.bid == bid && r.epoch == epoch
