-- ===== src/PartyStore/Phases.antt =====
-- The phases of a session in prototype/locus/party_store.py and reserve_commitment. The result of
-- `secrets.token_hex(32)` is the argument `token`.
use Prim.Native.String.{String}
use locus_v.Prelude.{ℕ, Bool, true, false, not, ◌&&◌, ◌||◌, Option, none, some, List, [], ◌∷◌}
use locus_v.Prelude.Eq.{◌==◌, nat_eq, list_eq, option_eq}
use locus_v.Prelude.Lists.{length, last?}
use locus_v.Prelude.Sets.{contains}
use locus_v.Prelude.Ordered.{is_canonical}
use locus_v.Prelude.Results.{ok, ◌>>=◌, ◌>>◌, raise_if, or_raise}
use locus_v.Certificates.Values.{Text, Bytes, Values, integer, array, item}
use locus_v.Certificates.Hash.{Crypto, hash_bytes, to_hex}
use locus_v.Certificates.Config.{first_below_one, last_above}
use locus_v.PartyStore.Tables.{
  PhaseState, intent, commitment_stored, lost, invalid_state, conflict, session_lost,
  integrity_error, Stored, PhaseRow, Store, is_active, select, found, at_epoch, at_session,
  append_audit,
}
use locus_v.PartyStore.Ledger.{check_hex, check_int}

pub record PhaseReservation : Type 0 where
  pub phase_instance_id : Text
  pub state : PhaseState
  pub commitment : Option Bytes
  pub response : Option Bytes

-- The arguments of reserve_commitment.
pub record CommitmentRequest : Type 0 where
  pub bid : Text
  pub epoch : ℕ
  pub sid : Text
  pub party_id : ℕ
  pub request : Bytes
  pub selected : List ℕ
  pub certificate_hash : Text
  pub freshness_digest : Text

abbrev pub at_phase : Text → PhaseRow → Bool
at_phase id r = r.phase_instance_id == id

-- The primary key of a phase.
abbrev pub at_scope : Text → ℕ → Text → ℕ → PhaseRow → Bool
at_scope bid epoch sid party_id r =
    r.bid == bid && r.epoch == epoch && r.sid == sid && r.party_id == party_id

abbrev pub is_intent : PhaseState → Bool
is_intent intent = true
is_intent _ = false

abbrev pub is_stored : PhaseState → Bool
is_stored commitment_stored = true
is_stored _ = false

abbrev pub is_open : PhaseState → Bool
is_open intent = true
is_open commitment_stored = true
is_open _ = false

-- `existing["state"] in {"INTENT", "LOST"}`
abbrev pub is_unresumable : PhaseState → Bool
is_unresumable intent = true
is_unresumable lost = true
is_unresumable _ = false

-- The INSERT of a phase: PRIMARY KEY (bid, epoch, sid, party_id), UNIQUE (phase_instance_id).
abbrev pub insert_phase : PhaseRow → List PhaseRow → Stored (List PhaseRow)
insert_phase r rows = do
  raise_if
      (found (select (at_scope r.bid r.epoch r.sid r.party_id) rows)
        || found (select (at_phase r.phase_instance_id) rows))
      integrity_error
  ok (r ∷ rows)

unfoldable pub hash_part : Crypto → String → Bytes → Text
unfolding hash_bytes to_hex
hash_part crypto tag part = to_hex (hash_bytes crypto tag (part ∷ []))

abbrev pub id_items : List ℕ → Values
id_items [] = Values.empty
id_items (id ∷ ids) = item (integer id) (id_items ids)

unfoldable pub selected_digest : Crypto → List ℕ → Text
unfolding hash_part
selected_digest crypto selected =
    hash_part crypto "LOCUS/selected-parties/v1" (crypto.encode (array (id_items selected)))

unfoldable pub tpass_hash : Crypto → Bytes → Text
unfolding hash_part
tpass_hash crypto request = hash_part crypto "LOCUS/tpass-request-bytes/v1" request

abbrev pub reservation_of : PhaseRow → PhaseReservation
reservation_of r = record {
  phase_instance_id = r.phase_instance_id;
  state = r.state;
  commitment = r.commitment;
  response = r.response;
}

-- The row of the INSERT into phases.
abbrev pub new_phase : Crypto → Text → CommitmentRequest → PhaseRow
new_phase crypto token c = record {
  bid = c.bid;
  epoch = c.epoch;
  sid = c.sid;
  party_id = c.party_id;
  phase_instance_id = token;
  selected_digest = selected_digest crypto c.selected;
  freshness_digest = c.freshness_digest;
  state = intent;
  commitment = none;
  response = none;
}

-- The tests of the arguments.
unfoldable pub check_commitment : CommitmentRequest → Stored (Unit {0})
unfolding check_hex check_int
check_commitment c = do
  check_hex 16 c.bid
  check_int c.epoch
  check_hex 32 c.sid
  check_int c.party_id
  check_hex 32 c.certificate_hash
  check_hex 32 c.freshness_digest
  raise_if
      (length c.selected == 0
        || not (is_canonical c.selected)
        || first_below_one c.selected
        || last_above (last? c.selected)
        || not (contains c.selected c.party_id))
      invalid_state

-- The rest of the transaction, when the phase exists or does not.
abbrev pub reserve_over :
    Crypto → PhaseRow → Text → Store → Option PhaseRow → Stored (PhaseReservation × Store)
reserve_over crypto fresh request_digest s (some existing) = do
  raise_if (is_unresumable existing.state) session_lost
  raise_if
      (not (existing.selected_digest == fresh.selected_digest)
        || not (existing.freshness_digest == fresh.freshness_digest))
      conflict
  ok (reservation_of existing, s)
reserve_over crypto fresh request_digest s none = do
  rows ← insert_phase fresh s.phases
  ok (
    reservation_of fresh,
    record s {
      phases = rows;
      audit_events =
          append_audit crypto "TPASS_COMMITMENT_INTENT" fresh.bid fresh.epoch request_digest
            s.audit_events;
    },
  )

unfoldable pub reserve_commitment :
    Crypto → Text → CommitmentRequest → Store → Stored (PhaseReservation × Store)
unfolding check_commitment tpass_hash selected_digest append_audit
reserve_commitment crypto token c s = do
  check_commitment c
  row ← or_raise (select (at_epoch c.bid c.epoch) s.epochs) invalid_state
  raise_if (not (is_active row.status) || not (row.party_id == c.party_id)) invalid_state
  attempt ← or_raise (select (at_session c.bid c.epoch c.sid) s.attempts) invalid_state
  raise_if
      (not (attempt.tpass_request_hash == tpass_hash crypto c.request)
        || not (attempt.certificate_hash == c.certificate_hash))
      conflict
  reserve_over crypto (new_phase crypto token c) attempt.request_digest s
      (select (at_scope c.bid c.epoch c.sid c.party_id) s.phases)
