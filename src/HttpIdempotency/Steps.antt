-- ===== src/HttpIdempotency/Steps.antt =====
-- The transactions on http_idempotency in prototype/locus/party_store.py as steps, which leave the rows
-- that are complete.
use locus_v.Prelude.{
  ℕ, Bool, true, false, not, ◌||◌, ltb, Option, none, some, List, ◌∷◌, ◌≡◌, refl, sym, ap, subst,
  ◌∙◌, arith, Bool-cases, inl, inr,
}
use locus_v.Prelude.Eq.{◌==◌, nat_eq, list_eq, option_eq, eq_of_beq}
use locus_v.Prelude.Lists.{length}
use locus_v.Prelude.Results.{ok, raise_if-ok, bind-ok}
use locus_v.Certificates.Values.{Text}
use locus_v.PartyStore.Tables.{select, update}
use locus_v.PartyStore.Ledger.{check_hex}
use locus_v.PartyStore.Rows.{select-update-some, select-here}
use locus_v.HttpIdempotency.Requests.{
  HttpState, started, retryable, complete, HttpRow, HttpBinding, HttpReservation,
  validate_http_binding, at_key, same_request, started_row, restart, begin_from, begin_over,
  begin_http_request, max_idempotency_response_bytes, HttpCompletion, finish, complete_from,
  require_owner, complete_http_request, set_retryable, retry_from, retry_http_request, is_started,
  recover_http_requests,
}

-- A transaction on the table that was committed.
pub data HttpStep (rows : List HttpRow) : List HttpRow → Type 0 where
  begun :
      {after : List HttpRow} (b : HttpBinding) (v : HttpReservation)
      → begin_http_request b rows ≡ ok (v, after)
      → HttpStep rows after
  finished :
      {after : List HttpRow} (c : HttpCompletion)
      → complete_http_request c rows ≡ ok after
      → HttpStep rows after
  retried :
      {after : List HttpRow} (key nonce : Text)
      → retry_http_request key nonce rows ≡ ok after
      → HttpStep rows after
  recovered :
      {after : List HttpRow} (n : ℕ) → recover_http_requests rows ≡ (n, after) → HttpStep rows after

pub data HttpReach (rows : List HttpRow) : List HttpRow → Type 0 where
  start : HttpReach rows rows
  next :
      {middle after : List HttpRow}
      → HttpReach rows middle
      → HttpStep middle after
      → HttpReach rows after

-- The row of a key is `r`.
abbrev pub Holds : Text → HttpRow → List HttpRow → Type 0
Holds key r rows = select (at_key key) rows ≡ some r

-- An UPDATE of another key, or of rows in another state.
update-Holds :
    (key : Text) (r : HttpRow) (test : HttpRow → Bool) (change : HttpRow → HttpRow)
    (rows : List HttpRow)
    → ((x : HttpRow) → (change x).idempotency_key ≡ x.idempotency_key)
    → test r ≡ false
    → Holds key r rows
    → Holds key r (update test change rows)
update-Holds key r test change rows keeps other h =
    select-update-some (at_key key) test change rows r (λ x. ap (λ z. z == key) (keeps x)) h
    ∙ rw other refl

abbrev is_complete : HttpState → Bool
is_complete complete = true
is_complete _ = false

-- Of two rows that are held, one that is complete and one that is not have different keys.
other_key :
    (key other : Text) (r x : HttpRow) (rows : List HttpRow)
    → Holds key r rows
    → Holds other x rows
    → r.state ≡ complete
    → is_complete x.state ≡ false
    → at_key other r ≡ false
other_key key other r x rows h k done open_row = elim (Bool-cases (at_key other r)) [
  | inl e ↦
      let p = eq_of_beq r.idempotency_key key (select-here (at_key key) rows r h) in
      let q = eq_of_beq r.idempotency_key other e in
      let same : r ≡ x = ground (arith, subst (λ z. Holds z r rows) (sym p ∙ q) h, k) in
      let again : is_complete x.state ≡ true =
        ap is_complete (ap (λ z. z.state) (sym same) ∙ done) in
      absurd (ground (arith, again, open_row))
  | inr e ↦ e
]

begin_from-Holds :
    (b : HttpBinding) (rows after : List HttpRow) (x r : HttpRow) (z : HttpState)
    (v : HttpReservation) (key : Text)
    → x.state ≡ z
    → Holds b.idempotency_key x rows
    → begin_from b rows x z ≡ ok (v, after)
    → r.state ≡ complete
    → Holds key r rows
    → Holds key r after
begin_from-Holds b rows after x r complete v key e at h done held =
    let o : rows ≡ after = ground (arith, h) in subst (Holds key r) o held
begin_from-Holds b rows after x r started v key e at h done held = absurd (cc)
begin_from-Holds b rows after x r retryable v key e at h done held =
    let away = other_key key b.idempotency_key r x rows held at done (ap is_complete e) in
    let o : update (at_key b.idempotency_key) (restart b.owner_boot_nonce) rows ≡ after =
      ground (arith, h) in
    subst (Holds key r) o (
      update-Holds key r (at_key b.idempotency_key) (restart b.owner_boot_nonce) rows (λ y. refl)
        away held)

begin_over-Holds :
    (b : HttpBinding) (rows after : List HttpRow) (r : HttpRow) (o : Option HttpRow)
    (v : HttpReservation) (key : Text)
    → select (at_key b.idempotency_key) rows ≡ o
    → begin_over b rows o ≡ ok (v, after)
    → r.state ≡ complete
    → Holds key r rows
    → Holds key r after
begin_over-Holds b rows after r none v key at h done held =
    let o : started_row b ∷ rows ≡ after = ground (arith, h) in
    subst (Holds key r) o (elim (Bool-cases (b.idempotency_key == key)) [
      | inl e ↦
          let free : select (at_key key) rows ≡ none =
            subst (λ z. select (at_key z) rows ≡ none) (eq_of_beq b.idempotency_key key e) at in
          absurd (ground (arith, held, free))
      | inr e ↦ rw e held
    ])
begin_over-Holds b rows after r (some x) v key at h done held =
    let (_, rest) = raise_if-ok (not (same_request b x)) _ _ _ h in
    begin_from-Holds b rows after x r x.state v key refl at rest done held

complete_from-Holds :
    (c : HttpCompletion) (rows after : List HttpRow) (x r : HttpRow) (z : HttpState) (key : Text)
    → x.state ≡ z
    → Holds c.idempotency_key x rows
    → complete_from c rows x z ≡ ok after
    → r.state ≡ complete
    → Holds key r rows
    → Holds key r after
complete_from-Holds c rows after x r complete key e at h done held =
    let (_, rest) =
      raise_if-ok
        (not (x.response_status == some c.response_status)
          || not (x.response_body == some c.response_body))
        _ _ _ h in
    let o : rows ≡ after = ground (arith, rest) in subst (Holds key r) o held
complete_from-Holds c rows after x r retryable key e at h done held = absurd (cc)
complete_from-Holds c rows after x r started key e at h done held =
    let away = other_key key c.idempotency_key r x rows held at done (ap is_complete e) in
    let o : update (at_key c.idempotency_key) (finish c) rows ≡ after = ground (arith, h) in
    subst (Holds key r) o
      (update-Holds key r (at_key c.idempotency_key) (finish c) rows (λ y. refl) away held)

retry_from-Holds :
    (other : Text) (rows after : List HttpRow) (x r : HttpRow) (z : HttpState) (key : Text)
    → x.state ≡ z
    → Holds other x rows
    → retry_from other rows z ≡ ok after
    → r.state ≡ complete
    → Holds key r rows
    → Holds key r after
retry_from-Holds other rows after x r complete key e at h done held =
    let o : rows ≡ after = ground (arith, h) in subst (Holds key r) o held
retry_from-Holds other rows after x r retryable key e at h done held = absurd (cc)
retry_from-Holds other rows after x r started key e at h done held =
    let away = other_key key other r x rows held at done (ap is_complete e) in
    let o : update (at_key other) set_retryable rows ≡ after = ground (arith, h) in
    subst (Holds key r) o
      (update-Holds key r (at_key other) set_retryable rows (λ y. refl) away held)

require_owner-some :
    (nonce : Text) (o : Option HttpRow) (x : HttpRow) → require_owner nonce o ≡ ok x → o ≡ some x
require_owner-some nonce none x h = absurd (cc)
require_owner-some nonce (some y) x h =
    let (_, rest) = raise_if-ok (not (y.owner_boot_nonce == nonce)) _ _ _ h in cc

not_started : (z : HttpState) → z ≡ complete → is_started z ≡ false
not_started z h = ap is_started h

-- The row that a response was stored in.
pub completion_owned :
    (c : HttpCompletion) (rows after : List HttpRow)
    → complete_http_request c rows ≡ ok after
    → (x : HttpRow) × Holds c.idempotency_key x rows × (complete_from c rows x x.state ≡ ok after)
unfolding complete_http_request
completion_owned c rows after h =
    let (_, _, h1) = bind-ok (check_hex 32 c.idempotency_key) _ _ h in
    let (_, _, h2) = bind-ok (check_hex 32 c.owner_boot_nonce) _ _ h1 in
    let (_, h3) = raise_if-ok (ltb c.response_status 100 || ltb 599 c.response_status) _ _ _ h2 in
    let (_, h4) =
      raise_if-ok
        (length c.response_body == 0 || ltb max_idempotency_response_bytes (length c.response_body))
        _ _ _ h3 in
    let (x, at, h5) =
      bind-ok (require_owner c.owner_boot_nonce (select (at_key c.idempotency_key) rows)) _ _ h4 in
    (x, require_owner-some c.owner_boot_nonce (select (at_key c.idempotency_key) rows) x at, h5)

-- A complete row stays as it is.
HttpStep-Holds :
    (rows after : List HttpRow) (key : Text) (r : HttpRow)
    → HttpStep rows after
    → r.state ≡ complete
    → Holds key r rows
    → Holds key r after
unfolding begin_http_request retry_http_request recover_http_requests
HttpStep-Holds rows after key r (begun b v h) done held =
    let (_, _, rest) = bind-ok (validate_http_binding b) _ _ h in
    begin_over-Holds b rows after r (select (at_key b.idempotency_key) rows) v key refl rest done
      held
HttpStep-Holds rows after key r (finished c h) done held =
    let (x, at, rest) = completion_owned c rows after h in
    complete_from-Holds c rows after x r x.state key refl at rest done held
HttpStep-Holds rows after key r (retried other nonce h) done held =
    let (_, _, h1) = bind-ok (check_hex 32 other) _ _ h in
    let (_, _, h2) = bind-ok (check_hex 32 nonce) _ _ h1 in
    let (x, at, h3) = bind-ok (require_owner nonce (select (at_key other) rows)) _ _ h2 in
    retry_from-Holds other rows after x r x.state key refl
      (require_owner-some nonce (select (at_key other) rows) x at) h3 done held
HttpStep-Holds rows after key r (recovered n h) done held = subst (Holds key r) (ap (λ z. z.1) h) (
    update-Holds key r (λ x. is_started x.state) set_retryable rows (λ x. refl)
      (not_started r.state done) held)

pub HttpReach-Holds :
    (rows after : List HttpRow) (key : Text) (r : HttpRow)
    → HttpReach rows after
    → r.state ≡ complete
    → Holds key r rows
    → Holds key r after
HttpReach-Holds rows after key r start done held = held
HttpReach-Holds rows after key r (next {middle = m} q k) done held =
    HttpStep-Holds m after key r k done (HttpReach-Holds rows m key r q done held)
