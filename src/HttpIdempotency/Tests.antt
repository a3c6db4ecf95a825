-- ===== src/HttpIdempotency/Tests.antt =====
-- The replay of a stored response at a concrete request.
use locus_v.Prelude.{◌≡◌, refl, some, List, [], ◌∷◌, if◌then◌else◌}
use locus_v.Prelude.Eq.{nat_eq, list_eq}
use locus_v.Prelude.Results.{ok, raise}
use locus_v.Certificates.Values.{codes}
use locus_v.Certificates.Samples.{zero_hex}
use locus_v.PartyStore.Tables.{select, conflict}
use locus_v.HttpIdempotency.Requests.{
  HttpRow, HttpBinding, HttpCompletion, completed, at_key, same_request, started_row, finish,
  begin_http_request, complete_http_request, retry_http_request, validate_http_binding,
}
use locus_v.HttpIdempotency.Steps.{start, next, retried}
use locus_v.HttpIdempotency.Replay.{response_replayed}

abbrev binding : HttpBinding
binding = record {
  idempotency_key = zero_hex 64;
  caller_fingerprint = zero_hex 64;
  method = codes "POST";
  route = 47 ∷ 97 ∷ [];
  request_digest = zero_hex 64;
  owner_boot_nonce = zero_hex 64;
}

abbrev completion : HttpCompletion
completion = record {
  idempotency_key = zero_hex 64;
  owner_boot_nonce = zero_hex 64;
  response_status = 200;
  response_body = 7 ∷ [];
}

abbrev stored : List HttpRow
stored = finish completion (started_row binding) ∷ []

completing : complete_http_request completion (started_row binding ∷ []) ≡ ok stored
unfolding complete_http_request
completing = refl

retrying : retry_http_request (zero_hex 64) (zero_hex 64) stored ≡ ok stored
unfolding retry_http_request
retrying = refl

valid : validate_http_binding binding ≡ ok tt
unfolding validate_http_binding
valid = refl

response_replayed_example :
    (x : HttpRow) × (select (at_key (zero_hex 64)) (started_row binding ∷ []) ≡ some x)
    × (begin_http_request binding stored ≡ (
        if same_request binding x
        then ok (completed (some 200) (some (7 ∷ [])), stored)
        else raise conflict))
response_replayed_example =
    response_replayed completion binding (started_row binding ∷ []) stored stored completing
      (next start (retried (zero_hex 64) (zero_hex 64) retrying)) refl valid
