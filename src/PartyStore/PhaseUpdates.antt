-- ===== src/PartyStore/PhaseUpdates.antt =====
-- The phases of a session in prototype/locus/party_store.py after their reservation: store_commitment,
-- store_response, mark_open_phases_lost, mark_phase_lost, validate_phase_binding, phase_scope and phase.
use Prim.Native.String.{String}
use locus_v.Prelude.{ℕ, Bool, false, not, ◌||◌, Option, none, some, List, [], ◌∷◌, if◌then◌else◌}
use locus_v.Prelude.Eq.{◌==◌, nat_eq, list_eq, option_eq}
use locus_v.Prelude.Lists.{length}
use locus_v.Prelude.Ordered.{is_canonical}
use locus_v.Prelude.Results.{ok, raise, ◌>>=◌, ◌>>◌, raise_if, or_raise}
use locus_v.Certificates.Values.{Text, Bytes}
use locus_v.Certificates.Hash.{Crypto}
use locus_v.PartyStore.Tables.{
  PhaseState, commitment_stored, responded, lost, invalid_state, conflict, Stored, PhaseRow, Store,
  is_active, select, update, at_epoch, at_session, append_audit,
}
use locus_v.PartyStore.Ledger.{check_hex}
use locus_v.PartyStore.Phases.{
  PhaseReservation, at_phase, hash_part, is_intent, is_open, is_stored, reservation_of,
  selected_digest, tpass_hash,
}

-- An UPDATE of one phase, with its audit event.
abbrev pub move_phase :
    Crypto → Text → (PhaseRow → PhaseRow) → String → Text → PhaseRow → Store → Store
move_phase crypto id change event digest row s = record s {
  phases = update (at_phase id) change s.phases;
  audit_events = append_audit crypto event row.bid row.epoch digest s.audit_events;
}

abbrev pub set_commitment : Bytes → PhaseRow → PhaseRow
set_commitment bytes r = record r { state = commitment_stored; commitment = some bytes }

abbrev pub set_response : Bytes → PhaseRow → PhaseRow
set_response bytes r = record r { state = responded; response = some bytes }

abbrev pub set_lost : PhaseRow → PhaseRow
set_lost r = record r { state = lost }

unfoldable pub store_commitment : Crypto → Text → Bytes → Store → Stored Store
unfolding check_hex hash_part append_audit
store_commitment crypto id commitment s = do
  check_hex 32 id
  raise_if (length commitment == 0) invalid_state
  row ← or_raise (select (at_phase id) s.phases) invalid_state
  raise_if (not (is_intent row.state)) invalid_state
  ok (
      move_phase crypto id (set_commitment commitment) "TPASS_COMMITMENT_STORED"
        (hash_part crypto "LOCUS/commitment/v1" commitment) row s)

unfoldable pub store_response : Crypto → Text → Bytes → Store → Stored Store
unfolding check_hex hash_part append_audit
store_response crypto id response s = do
  check_hex 32 id
  raise_if (length response == 0) invalid_state
  row ← or_raise (select (at_phase id) s.phases) invalid_state
  raise_if (not (is_stored row.state)) invalid_state
  ok (
      move_phase crypto id (set_response response) "TPASS_RESPONSE_STORED"
        (hash_part crypto "LOCUS/response/v1" response) row s)

abbrev pub open_phases : List PhaseRow → List PhaseRow
open_phases [] = []
open_phases (r ∷ rows) = let rest = open_phases rows in if is_open r.state then r ∷ rest else rest

-- The loop of mark_open_phases_lost, the oldest row first.
unfoldable pub lose_each : Crypto → List PhaseRow → Store → Store
unfolding append_audit
lose_each crypto [] s = s
lose_each crypto (r ∷ rows) s =
    move_phase crypto r.phase_instance_id set_lost "TPASS_SESSION_LOST" r.phase_instance_id r
      (lose_each crypto rows s)

unfoldable pub mark_open_phases_lost : Crypto → Store → ℕ × Store
unfolding lose_each
mark_open_phases_lost crypto s =
    (length (open_phases s.phases), lose_each crypto (open_phases s.phases) s)

-- What mark_phase_lost does to a row in each state.
abbrev pub lose_from : Crypto → Text → PhaseRow → Store → PhaseState → Stored Store
lose_from crypto id row s responded = raise invalid_state
lose_from crypto id row s lost = ok s
lose_from crypto id row s _ = ok (move_phase crypto id set_lost "TPASS_SESSION_LOST" id row s)

unfoldable pub mark_phase_lost : Crypto → Text → Store → Stored Store
unfolding check_hex append_audit
mark_phase_lost crypto id s = do
  check_hex 32 id
  row ← or_raise (select (at_phase id) s.phases) invalid_state
  lose_from crypto id row s row.state

-- `sid is not None and row["sid"] != sid`
abbrev pub other_session : Option Text → Text → Bool
other_session none sid = false
other_session (some expected) sid = not (sid == expected)

abbrev pub check_session : Option Text → Stored (Unit {0})
unfolding check_hex
check_session none = ok tt
check_session (some sid) = check_hex 32 sid

unfoldable pub validate_phase_binding :
    Crypto → Text → Option Text → Bytes → List ℕ → Store → Stored PhaseReservation
unfolding check_hex check_session tpass_hash selected_digest
validate_phase_binding crypto id sid request selected s = do
  check_hex 32 id
  check_session sid
  raise_if (length selected == 0 || not (is_canonical selected)) invalid_state
  row ← or_raise (select (at_phase id) s.phases) invalid_state
  attempt ← or_raise (select (at_session row.bid row.epoch row.sid) s.attempts) invalid_state
  epoch ← or_raise (select (at_epoch row.bid row.epoch) s.epochs) invalid_state
  raise_if
      (not (is_active epoch.status)
        || other_session sid row.sid
        || not (attempt.tpass_request_hash == tpass_hash crypto request)
        || not (row.selected_digest == selected_digest crypto selected))
      conflict
  ok (reservation_of row)

unfoldable pub phase_scope : Text → Store → Stored (Text × ℕ)
unfolding check_hex
phase_scope id s = do
  check_hex 32 id
  row ← or_raise (select (at_phase id) s.phases) invalid_state
  ok (row.bid, row.epoch)

unfoldable pub phase : Text → Store → Stored PhaseReservation
unfolding check_hex
phase id s = do
  check_hex 32 id
  row ← or_raise (select (at_phase id) s.phases) invalid_state
  ok (reservation_of row)
