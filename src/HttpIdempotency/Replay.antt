-- ===== src/HttpIdempotency/Replay.antt =====
-- The stored responses of prototype/locus/party_store.py are replayed under any later requests.
use locus_v.Prelude.{
  not, ◌||◌, if◌then◌else◌, some, List, ◌≡◌, refl, sym, ap, subst, ◌∙◌, arith, Bool-cases, inl, inr,
}
use locus_v.Prelude.Eq.{◌==◌, nat_eq, list_eq, option_eq, eq_of_beq}
use locus_v.Prelude.Results.{ok, raise, ◌>>◌, raise_if-ok}
use locus_v.PartyStore.Tables.{conflict, select, update}
use locus_v.PartyStore.Rows.{select-update-some, select-here}
use locus_v.HttpIdempotency.Requests.{
  HttpState, started, retryable, complete, HttpRow, HttpBinding, completed, validate_http_binding,
  at_key, same_request, begin_from, begin_over, begin_http_request, HttpCompletion, finish,
  complete_from, complete_http_request,
}
use locus_v.HttpIdempotency.Steps.{HttpReach, Holds, completion_owned, HttpReach-Holds}

-- The row holds the response, and is the row of the same request as `x`.
record IsStored (c : HttpCompletion) (x r : HttpRow) : Type 0 where
  pub done : r.state ≡ complete
  pub status : r.response_status ≡ some c.response_status
  pub body : r.response_body ≡ some c.response_body
  pub request : (b : HttpBinding) → same_request b r ≡ same_request b x

complete_from-IsStored :
    (c : HttpCompletion) (rows after : List HttpRow) (x : HttpRow) (z : HttpState)
    → x.state ≡ z
    → Holds c.idempotency_key x rows
    → complete_from c rows x z ≡ ok after
    → (r : HttpRow) × Holds c.idempotency_key r after × IsStored c x r
complete_from-IsStored c rows after x complete e at h =
    let (agree, rest) =
      raise_if-ok
        (not (x.response_status == some c.response_status)
          || not (x.response_body == some c.response_body))
        _ _ _ h in
    let o : rows ≡ after = ground (arith, rest) in
    (
      x,
      subst (Holds c.idempotency_key x) o at,
      record {
        done = e;
        status = eq_of_beq x.response_status (some c.response_status) (ground (arith, agree));
        body = eq_of_beq x.response_body (some c.response_body) (ground (arith, agree));
        request = λ b. refl;
      },
    )
complete_from-IsStored c rows after x retryable e at h = absurd (cc)
complete_from-IsStored c rows after x started e at h =
    let o : update (at_key c.idempotency_key) (finish c) rows ≡ after = ground (arith, h) in
    let here = select-here (at_key c.idempotency_key) rows x at in
    (
      finish c x,
      subst (Holds c.idempotency_key (finish c x)) o (
          select-update-some (at_key c.idempotency_key) (at_key c.idempotency_key) (finish c) rows x
            (λ y. refl) at
          ∙ rw here refl),
      record { done = refl; status = refl; body = refl; request = λ b. refl },
    )

begin_over-IsStored :
    (b : HttpBinding) (c : HttpCompletion) (x r : HttpRow) (rows : List HttpRow)
    → IsStored c x r
    → begin_over b rows (some r) ≡ (
        if same_request b x
        then ok (completed (some c.response_status) (some c.response_body), rows)
        else raise conflict)
begin_over-IsStored b c x r rows s = elim (Bool-cases (same_request b x)) [
  | inl e ↦ rw e (
      rw (s.request b ∙ e) (
        ap (begin_from b rows r) s.done
        ∙ ap (λ z. ok (completed z r.response_body, rows)) s.status
        ∙ ap (λ z. ok (completed (some c.response_status) z, rows)) s.body))
  | inr e ↦ rw e (rw (s.request b ∙ e) refl)
]

begin_http_request-valid :
    (b : HttpBinding) (rows : List HttpRow)
    → validate_http_binding b ≡ ok tt
    → begin_http_request b rows ≡ begin_over b rows (select (at_key b.idempotency_key) rows)
unfolding begin_http_request
begin_http_request-valid b rows h =
    ap (λ m. m >> begin_over b rows (select (at_key b.idempotency_key) rows)) h

-- When complete_http_request has stored a response, then after any further committed transactions on
-- the table a valid begin_http_request for its key returns exactly that response and changes nothing
-- if it is the request of the key's row, and raises a conflict if it is another request.
pub response_replayed :
    (c : HttpCompletion) (b : HttpBinding) (rows after later : List HttpRow)
    → complete_http_request c rows ≡ ok after
    → HttpReach after later
    → b.idempotency_key ≡ c.idempotency_key
    → validate_http_binding b ≡ ok tt
    → (x : HttpRow) × (select (at_key c.idempotency_key) rows ≡ some x)
      × (begin_http_request b later ≡ (
          if same_request b x
          then ok (completed (some c.response_status) (some c.response_body), later)
          else raise conflict))
response_replayed c b rows after later h onward same_key valid =
    let (x, at, stored) = completion_owned c rows after h in
    let (r, held, s) = complete_from-IsStored c rows after x x.state refl at stored in
    let kept = HttpReach-Holds after later c.idempotency_key r onward s.done held in
    (
      x,
      at,
      begin_http_request-valid b later valid
          ∙ ap (begin_over b later) (subst (λ z. Holds z r later) (sym same_key) kept)
          ∙ begin_over-IsStored b c x r later s,
    )
