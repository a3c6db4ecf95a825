-- ===== src/HttpIdempotency/Requests.antt =====
-- _validate_http_binding, begin_http_request, complete_http_request, retry_http_request and
-- recover_http_requests of prototype/locus/party_store.py, on the rows of http_idempotency.
use locus_v.Prelude.{ℕ, Bool, true, false, not, ◌&&◌, ◌||◌, Option, none, some, List, [], ◌∷◌, ltb}
use locus_v.Prelude.Eq.{◌==◌, nat_eq, list_eq, option_eq}
use locus_v.Prelude.Lists.{length, count}
use locus_v.Prelude.Results.{ok, raise, ◌>>=◌, ◌>>◌, raise_if}
use locus_v.Certificates.Values.{Text, Bytes, codes}
use locus_v.PartyStore.Tables.{Stored, invalid_state, conflict, request_in_progress, select, update}
use locus_v.PartyStore.Ledger.{check_hex}

pub data HttpState : Type 0 where
  started retryable complete : HttpState

pub record HttpRow : Type 0 where
  pub idempotency_key : Text
  pub caller_fingerprint : Text
  pub method : Text
  pub route : Text
  pub request_digest : Text
  pub owner_boot_nonce : Text
  pub state : HttpState
  pub response_status : Option ℕ
  pub response_body : Option Bytes

-- The keyword arguments of begin_http_request.
pub record HttpBinding : Type 0 where
  pub idempotency_key : Text
  pub caller_fingerprint : Text
  pub method : Text
  pub route : Text
  pub request_digest : Text
  pub owner_boot_nonce : Text

-- HttpIdempotencyReservation: its state is "EXECUTE", or "COMPLETE" with the stored response.
pub data HttpReservation : Type 0 where
  execute : HttpReservation
  completed : Option ℕ → Option Bytes → HttpReservation

abbrev pub starts_with_slash : Text → Bool
starts_with_slash [] = false
starts_with_slash (c ∷ cs) = c == 47

-- ord(character) < 0x21 or ord(character) > 0x7E
abbrev pub is_unprintable : ℕ → Bool
is_unprintable c = ltb c 33 || ltb 126 c

unfoldable pub validate_http_binding : HttpBinding → Stored (Unit {0})
unfolding check_hex
validate_http_binding b = do
  check_hex 32 b.idempotency_key
  check_hex 32 b.caller_fingerprint
  check_hex 32 b.request_digest
  check_hex 32 b.owner_boot_nonce
  raise_if (not (b.method == codes "POST")) invalid_state
  raise_if
      (not (starts_with_slash b.route)
        || ltb 2048 (length b.route)
        || ltb 0 (count is_unprintable b.route))
      invalid_state

abbrev pub at_key : Text → HttpRow → Bool
at_key key r = r.idempotency_key == key

-- actual == expected
abbrev pub same_request : HttpBinding → HttpRow → Bool
same_request b r =
    r.caller_fingerprint == b.caller_fingerprint
    && r.method == b.method
    && r.route == b.route
    && r.request_digest == b.request_digest

abbrev pub started_row : HttpBinding → HttpRow
started_row b = record {
  idempotency_key = b.idempotency_key;
  caller_fingerprint = b.caller_fingerprint;
  method = b.method;
  route = b.route;
  request_digest = b.request_digest;
  owner_boot_nonce = b.owner_boot_nonce;
  state = started;
  response_status = none;
  response_body = none;
}

abbrev pub restart : Text → HttpRow → HttpRow
restart nonce r = record r { owner_boot_nonce = nonce; state = started }

-- A row of the same request, by its state.
abbrev pub begin_from :
    HttpBinding → List HttpRow → HttpRow → HttpState → Stored (HttpReservation × List HttpRow)
begin_from b rows r complete = ok (completed r.response_status r.response_body, rows)
begin_from b rows r started = raise request_in_progress
begin_from b rows r retryable =
    ok (execute, update (at_key b.idempotency_key) (restart b.owner_boot_nonce) rows)

abbrev pub begin_over :
    HttpBinding → List HttpRow → Option HttpRow → Stored (HttpReservation × List HttpRow)
begin_over b rows none = ok (execute, started_row b ∷ rows)
begin_over b rows (some r) = do
  raise_if (not (same_request b r)) conflict
  begin_from b rows r r.state

unfoldable pub begin_http_request :
    HttpBinding → List HttpRow → Stored (HttpReservation × List HttpRow)
unfolding validate_http_binding
begin_http_request b rows = do
  validate_http_binding b
  begin_over b rows (select (at_key b.idempotency_key) rows)

-- MAX_IDEMPOTENCY_RESPONSE_BYTES
abbrev pub max_idempotency_response_bytes : ℕ
max_idempotency_response_bytes = 1048576

-- The keyword arguments of complete_http_request.
pub record HttpCompletion : Type 0 where
  pub idempotency_key : Text
  pub owner_boot_nonce : Text
  pub response_status : ℕ
  pub response_body : Bytes

abbrev pub finish : HttpCompletion → HttpRow → HttpRow
finish c r = record r {
  state = complete;
  response_status = some c.response_status;
  response_body = some c.response_body;
}

abbrev pub complete_from :
    HttpCompletion → List HttpRow → HttpRow → HttpState → Stored (List HttpRow)
complete_from c rows r complete = do
  raise_if
      (not (r.response_status == some c.response_status)
        || not (r.response_body == some c.response_body))
      conflict
  ok rows
complete_from c rows r started = ok (update (at_key c.idempotency_key) (finish c) rows)
complete_from c rows r retryable = raise invalid_state

-- `row is None or row["owner_boot_nonce"] != owner_boot_nonce`
abbrev pub require_owner : Text → Option HttpRow → Stored HttpRow
require_owner nonce none = raise conflict
require_owner nonce (some r) = do raise_if (not (r.owner_boot_nonce == nonce)) conflict; ok r

unfoldable pub complete_http_request : HttpCompletion → List HttpRow → Stored (List HttpRow)
unfolding check_hex
complete_http_request c rows = do
  check_hex 32 c.idempotency_key
  check_hex 32 c.owner_boot_nonce
  raise_if (ltb c.response_status 100 || ltb 599 c.response_status) invalid_state
  raise_if
      (length c.response_body == 0 || ltb max_idempotency_response_bytes (length c.response_body))
      invalid_state
  r ← require_owner c.owner_boot_nonce (select (at_key c.idempotency_key) rows)
  complete_from c rows r r.state

abbrev pub set_retryable : HttpRow → HttpRow
set_retryable r = record r { state = retryable }

abbrev pub retry_from : Text → List HttpRow → HttpState → Stored (List HttpRow)
retry_from key rows complete = ok rows
retry_from key rows started = ok (update (at_key key) set_retryable rows)
retry_from key rows retryable = raise invalid_state

unfoldable pub retry_http_request : Text → Text → List HttpRow → Stored (List HttpRow)
unfolding check_hex
retry_http_request key nonce rows = do
  check_hex 32 key
  check_hex 32 nonce
  r ← require_owner nonce (select (at_key key) rows)
  retry_from key rows r.state

abbrev pub is_started : HttpState → Bool
is_started started = true
is_started _ = false

unfoldable pub recover_http_requests : List HttpRow → ℕ × List HttpRow
recover_http_requests rows =
    (count (λ r. is_started r.state) rows, update (λ r. is_started r.state) set_retryable rows)
