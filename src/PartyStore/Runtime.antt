-- ===== src/PartyStore/Runtime.antt =====
-- The runtime packages of prototype/locus/party_store.py: _validate_runtime_components,
-- _decode_runtime_record, register_initial_runtime_package and runtime_epoch_package.
use locus_v.Prelude.{ℕ, Bool, false, not, ◌&&◌, ◌||◌, Option, none, some, ◌∷◌, ltb}
use locus_v.Prelude.Eq.{◌==◌, nat_eq, list_eq, option_eq, bool_eq}
use locus_v.Prelude.Lists.{length}
use locus_v.Prelude.Results.{ok, raise, ◌>>=◌, ◌>>◌, raise_if, or_raise}
use locus_v.Certificates.Values.{Text, Bytes}
use locus_v.Certificates.Hash.{Crypto}
use locus_v.Certificates.Config.{
  AuthorizerConfig, validate_config, config_digest, config_to_dict, config_from_dict, key_of,
}
use locus_v.Lifecycle.Values.{overflow, config_error, Cycled}
use locus_v.Lifecycle.Package.{
  RuntimeEpochPackage, package_to_dict, package_from_dict, validate_package, package_digest,
  hash_parameters, hash_party_state, is_given, is_configured,
}
use locus_v.PartyStore.EpochTables.{
  RuntimeState, runtime_prepared, runtime_active, runtime_retired, RuntimeRow, at_runtime,
}
use locus_v.PartyStore.Tables.{
  EpochStatus, active, retired, failed_closed, invalid_state, conflict, integrity_error,
  certificate_error, lifecycle_error, Stored, lift, Store, select, at_epoch, genesis_head,
}
use locus_v.PartyStore.Ledger.{EpochConfig, validate_epoch, check_hex, check_int}

-- An exception of epoch_lifecycle.py that nothing catches.
abbrev pub pass : {A : Type 0} → Cycled A → Stored A
pass (ok a) = ok a
pass (raise (config_error e)) = raise (certificate_error e)
pass (raise e) = raise (lifecycle_error e)

-- `except LifecycleCertificateError`, which CertificateError and OverflowError are not.
abbrev pub catch : {A : Type 0} → Cycled A → Stored A
catch (ok a) = ok a
catch (raise (config_error e)) = raise (certificate_error e)
catch (raise overflow) = raise (lifecycle_error overflow)
catch (raise e) = raise invalid_state

-- MAX_RUNTIME_COMPONENT_BYTES
abbrev pub max_runtime_component_bytes : ℕ
max_runtime_component_bytes = 262144

abbrev pub is_bad_component : Option Bytes → Bool
is_bad_component none = false
is_bad_component (some value) = length value == 0 || ltb max_runtime_component_bytes (length value)

unfoldable pub validate_runtime_components : Option Bytes → Option Bytes → Stored (Unit {0})
validate_runtime_components parameters party_state = do
  raise_if (not (is_given parameters == is_given party_state)) invalid_state
  raise_if (is_bad_component parameters || is_bad_component party_state) invalid_state

pub record RuntimeEpochPackageRecord : Type 0 where
  pub descriptor : RuntimeEpochPackage
  pub authorizer_config : AuthorizerConfig
  pub parameters : Option Bytes
  pub party_state : Option Bytes
  pub state : RuntimeState

unfoldable pub decode_runtime_record : Crypto → RuntimeRow → Stored RuntimeEpochPackageRecord
unfolding package_from_dict config_from_dict validate_runtime_components package_digest
    config_digest hash_parameters hash_party_state
decode_runtime_record crypto row = do
  descriptor ← catch (package_from_dict (crypto.loads row.descriptor_bytes))
  config ← lift (config_from_dict (crypto.loads row.authorizer_config_bytes))
  validate_runtime_components row.parameters_bytes row.party_state_bytes
  package_hash ← pass (package_digest crypto descriptor)
  config_hash ← lift (config_digest crypto config)
  raise_if
      (not (package_hash == row.package_digest)
        || not (descriptor.config_digest == config_hash)
        || not (descriptor.backup_digest == config.backup_digest)
        || not (descriptor.native_enabled == is_given row.parameters_bytes)
        || not (descriptor.parameters_hash == hash_parameters crypto row.parameters_bytes)
        || not (descriptor.party_state_hash == hash_party_state crypto row.party_state_bytes))
      invalid_state
  ok (record {
    descriptor = descriptor;
    authorizer_config = config;
    parameters = row.parameters_bytes;
    party_state = row.party_state_bytes;
    state = row.state;
  })

abbrev pub runtime_code : RuntimeState → ℕ
runtime_code runtime_prepared = 0
runtime_code runtime_active = 1
runtime_code runtime_retired = 2

-- The two rows agree outside their key.
abbrev pub same_runtime : RuntimeRow → RuntimeRow → Bool
same_runtime x y =
    x.party_id == y.party_id
    && x.package_digest == y.package_digest
    && x.descriptor_bytes == y.descriptor_bytes
    && x.authorizer_config_bytes == y.authorizer_config_bytes
    && x.parameters_bytes == y.parameters_bytes
    && x.party_state_bytes == y.party_state_bytes
    && runtime_code x.state == runtime_code y.state

-- `epoch["status"]` as the state of a package; the table allows no package that failed closed.
abbrev pub runtime_state_of : EpochStatus → Option RuntimeState
runtime_state_of active = some runtime_active
runtime_state_of retired = some runtime_retired
runtime_state_of failed_closed = none

abbrev pub initial_package :
    Crypto → EpochConfig → Option Bytes → Option Bytes → RuntimeEpochPackage
initial_package crypto c parameters party_state = record {
  bid = c.bid;
  epoch = c.epoch;
  party_id = c.party_id;
  transition_hash = genesis_head;
  config_digest = c.config_digest;
  backup_digest = c.backup_digest;
  native_enabled = is_given parameters;
  parameters_hash = hash_parameters crypto parameters;
  party_state_hash = hash_party_state crypto party_state;
}

abbrev pub runtime_row :
    Crypto
    → RuntimeEpochPackage
    → Text
    → AuthorizerConfig
    → Option Bytes
    → Option Bytes
    → RuntimeState
    → RuntimeRow
runtime_row crypto r digest config parameters party_state state = record {
  bid = r.bid;
  epoch = r.epoch;
  party_id = r.party_id;
  package_digest = digest;
  descriptor_bytes = crypto.encode (package_to_dict r);
  authorizer_config_bytes = crypto.encode (config_to_dict config);
  parameters_bytes = parameters;
  party_state_bytes = party_state;
  state = state;
}

-- The rest of the transaction, when the epoch has a package or has none.
abbrev pub register_over :
    (RuntimeState → RuntimeRow) → Option RuntimeState → Store → Option RuntimeRow → Stored Store
register_over fresh none s none = raise integrity_error
register_over fresh none s (some existing) = raise conflict
register_over fresh (some state) s none =
    ok (record s { runtime_packages = fresh state ∷ s.runtime_packages })
register_over fresh (some state) s (some existing) = do
  raise_if (not (same_runtime existing (fresh state))) conflict
  ok s

unfoldable pub register_initial_runtime_package :
    Crypto
    → EpochConfig
    → AuthorizerConfig
    → Option Bytes
    → Option Bytes
    → Store
    → Stored (Text × Store)
unfolding validate_epoch validate_config validate_runtime_components config_digest validate_package
    package_digest hash_parameters hash_party_state
register_initial_runtime_package crypto c config parameters party_state s = do
  validate_epoch c
  lift (validate_config config)
  validate_runtime_components parameters party_state
  digest ← lift (config_digest crypto config)
  raise_if
      (not (c.bid == config.bid)
        || not (c.epoch == config.epoch)
        || not (c.config_digest == digest)
        || not (c.backup_digest == config.backup_digest)
        || not (is_configured (key_of config.public_keys c.party_id)))
      invalid_state
  let descriptor = initial_package crypto c parameters party_state
  pass (validate_package descriptor)
  row ← or_raise (select (at_epoch c.bid c.epoch) s.epochs) invalid_state
  raise_if (not (row.party_id == c.party_id)) invalid_state
  package_hash ← pass (package_digest crypto descriptor)
  t ←
      register_over (runtime_row crypto descriptor package_hash config parameters party_state)
        (runtime_state_of row.status) s (select (at_runtime c.bid c.epoch) s.runtime_packages)
  ok (package_hash, t)

unfoldable pub runtime_epoch_package :
    Crypto → Text → ℕ → Bool → Store → Stored RuntimeEpochPackageRecord
unfolding check_hex check_int decode_runtime_record
runtime_epoch_package crypto bid epoch require_active s = do
  check_hex 16 bid
  check_int epoch
  row ← or_raise (select (at_runtime bid epoch) s.runtime_packages) invalid_state
  r ← decode_runtime_record crypto row
  raise_if (require_active && not (runtime_code r.state == 1)) invalid_state
  ok r
