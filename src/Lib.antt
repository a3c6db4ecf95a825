-- ===== src/Lib.antt =====
-- LOCUS: recovery of a private key from structured cues, a threshold of recovery parties and an
-- encrypted backup. This library models the control logic of the Python implementation in
-- prototype_final/locus, and proves what makes it correct.
--
-- Attempts. prototype_final/locus/attempt_model.py describes the authorizers that count recovery
-- attempts: five authorizers of which two may be faulty, certificates of four, chains of requests
-- within a budget of two, crashes, restored snapshots, reconciliation, and a breadth-first search
-- for a violation. The modules below AttemptModel model it:
--   AttemptModel/State        PartyState, ModelState, ModelScenario, the constants
--   AttemptModel/Party        validate, _party_key, _canonical_parties, _replace_party,
--                             _initial_state, _unique_party_indices
--   AttemptModel/Successors   the eight _*_successors and _successors, in its children
--   AttemptModel/Violation    _violation
--   AttemptModel/Search       explore_scenario and _trace
--   AttemptModel/Scenarios    SCENARIOS
-- and the other modules prove: Step is a relation of the proofs that every successor is in, Refines
-- shows so, Sound, Anchor, Forks and ForkFree are the invariants, Reach the reachable states,
-- Run evaluates schedules, Trail, Explored and Exploration are about the search.
-- Requests are an enumeration of the two strings of REQUESTS. `AttemptModelError` and `IndexError`
-- are values of ModelError. The printed actions are constructors with the printed values, so the
-- order in which _successors sorts (by printed action, then by printed state) is an argument
-- `before`, and the theorems hold for each. The loops over `while` take fuel: the search gets
-- max_states + 2, which is enough since each round removes a queued state and at most max_states are
-- ever queued; _trace gets one more than there are recorded states.
--
-- Contracts. prototype_final/locus/contracts.py has the typed values that cross the parts' interfaces.
-- Contracts/Values models _identifier, _positive_int and _opaque_bytes; Contracts/Directory, Suites
-- and Documents model the dataclasses, each with its __post_init__ as a function check_*.
-- Contracts/Accepts and Members prove what the checks accept. A `str` is the list of its code points.
-- The tests of a value's Python type have no counterpart, since the fields are typed; a negative `int`
-- has no value. RecoveryClientSession (an opaque Python object), GatewayRequest, GatewayResult and
-- AdmissionGrant are not modelled.
--
-- Clients. prototype_final/locus/enrollment_state.py and recovery_state.py are two state machines with
-- exact retries. ClientMachine/Store models begin and advance over the rules in which they differ;
-- Enrollment/State, Enrollment/Transitions and their like below Recovery model the phases, states,
-- events and rules. ClientMachine/Runs and Laws prove what holds for any rules; Rules, Laws, Calls and
-- Progress below Enrollment and Recovery prove the rest. A dictionary is an association list. The lock
-- makes every call atomic, so the calls of several threads are one sequence of commands; a call that
-- raises leaves the machine as it was. The machines take an event's fingerprint as an argument `encode`
-- and most theorems hold for any function; Enrollment/Fingerprint and Recovery/Fingerprint model the
-- `fingerprint` of the two event classes, with codec.encode. The error classes are one type,
-- ContractError, whose constructors stand for the messages.
--
-- Encoding. Codec models prototype_final/locus/codec.py over the library's `str.strip`,
-- `unicodedata.normalize` and `json.dumps`, the record `Codec`; `IsCodec` is what is documented of these,
-- on visible ASCII text and on the dictionary of an event. Codec/Events has what the fingerprints share,
-- Codec/Samples an instance.
--
-- Certificates. prototype_final/locus/attempt_certificates.py (prototype/locus has the same file) has
-- the signed objects of attempt control. Certificates/Values models the JSON values that `from_dict`
-- reads, with _integer, _hex and _exact_dict; a key that is missing cannot be read after _exact_dict,
-- so the lookup gives `null` there. Certificates/Hash has hash_bytes and _flatten of crypto.py, and the
-- record `Crypto` of the functions that the signed objects go through: SHA-256, Ed25519, `json.loads` and
-- codec.encode, for which the theorems hold whatever function of a value it is. In Python `to_bytes(4)`
-- raises for a length of 2^32 or more, where `to_bytes4` wraps, so what is proved of the framing is said
-- of shorter parts.
-- Config is AuthorizerConfig, Entry AttemptEntry, Votes the three kinds of vote, Prepare,
-- Authorization and Freshness the certificates. Accepted proves what `verify` has checked,
-- Intersection and RoundTrip the rest. A negative number has its own constructor, and a float or
-- another object is `other`.
--
-- Lifecycle. prototype/locus/epoch_lifecycle.py has the signed objects of re-enrollment, by which an
-- epoch gets a successor. Below Lifecycle, Values models _integer, _hex, _exact_dict and the exception,
-- Transition EpochTransition, Approval EpochApproval, Package RuntimeEpochPackage, Ready EpochReady
-- and Activation EpochActivationCertificate. Accepted proves what `verify` has checked, RoundTrip and
-- Reading that `from_dict` reads what `to_dict` writes.
--
-- Party store. prototype/locus/party_store.py is the durable ledger of one authorizer.
-- PartyStore/Tables and PartyStore/EpochTables model its tables as lists of rows, with the keys that
-- make an INSERT fail and _append_audit; Ledger models enroll_epoch and install_authorization, Slots
-- the transactions of create_entry_vote and create_install_vote, Authorizations those of
-- install_certificate, Methods these methods with what they leave behind when they raise, Phases and
-- PhaseUpdates the phases of a session and FreshnessVotes create_freshness_vote. Runtime models the
-- runtime packages, Successors create_epoch_approval, Preparations prepare_successor_epoch and
-- Activate activate_successor_epoch. A transaction that raises is rolled back, so a function of a
-- transaction returns either an error or the new store.
-- Steps lists the transactions as a step relation (PhaseSteps those on phases, EpochSteps those on
-- successor epochs), so other transactions may come between the two of a method; Locks, Prepared,
-- Install, OnEpochs, OnPackages and Activating prove what each does to the tables, EpochChange what
-- a step does to the epochs; Agreement, Accounts, Budget, Succession, EpochLaws, EpochChain,
-- HashChain and Reinstall prove what follows; PhaseChange, OnPhases, OnFreshness, Losing and
-- PhaseTable do so for the phases, PhaseLaws and PhaseBudget prove what they keep.
-- `secrets.token_hex` is an argument. The library's `sqlite3` is taken as documented: a transaction
-- is atomic, and an INSERT that breaks a key raises.
--
-- HTTP requests. The same file stores the responses of mutating HTTP requests under an idempotency
-- key. HttpIdempotency/Requests models _validate_http_binding and the four methods on the table
-- http_idempotency, HttpIdempotency/Steps its transactions as steps, and Replay what they keep.
--
-- Not modelled: cryptography and the native crates, storage, admission, the coordinator of attempts,
-- the services and user interfaces of the managed deployment, the report of the attempt model, and of
-- the party store the opening of the database and its schema version.
pub mod AttemptModel
pub mod Certificates
pub mod ClientMachine
pub mod Codec
pub mod Contracts
pub mod Enrollment
pub mod HttpIdempotency
pub mod Lifecycle
pub mod PartyStore
pub mod Prelude
pub mod Recovery
