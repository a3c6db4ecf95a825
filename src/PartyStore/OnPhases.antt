-- ===== src/PartyStore/OnPhases.antt =====
-- Each transaction on phases or freshness votes of prototype/locus/party_store.py as a change of the
-- table of phases alone.
use locus_v.Prelude.{
  Bool, true, false, not, ◌||◌, Option, none, some, List, ◌∷◌, ◌≡◌, refl, sym, ap, subst, arith,
  Option-cases, inl, inr,
}
use locus_v.Prelude.Eq.{◌==◌, nat_eq, list_eq}
use locus_v.Prelude.Lists.{length}
use locus_v.Prelude.Results.{ok, or_raise, raise_if-ok, bind-ok}
use locus_v.Certificates.Values.{Text, Bytes}
use locus_v.Certificates.Hash.{Crypto}
use locus_v.PartyStore.Tables.{
  invalid_state, Stored, PhaseState, intent, commitment_stored, responded, lost, AttemptRow,
  PhaseRow, Store, is_active, select, update, found, at_epoch, at_session,
}
use locus_v.PartyStore.Phases.{
  PhaseReservation, CommitmentRequest, at_phase, at_scope, is_intent, is_stored, is_unresumable,
  insert_phase, new_phase, reserve_over, reserve_commitment, check_commitment, tpass_hash,
  reservation_of,
}
use locus_v.PartyStore.PhaseUpdates.{
  set_commitment, set_response, set_lost, store_commitment, store_response, lose_from,
  mark_phase_lost,
}
use locus_v.PartyStore.Ledger.{check_hex}
use locus_v.PartyStore.PhaseChange.{
  Keeps, Forward, is_answered, set_commitment-Keeps, set_commitment-Forward, set_response-Keeps,
  set_response-Forward, set_lost-Keeps, set_lost-Forward, PhaseChange, same, added, changed,
}

pub record OnPhases (s t : Store) : Type 0 where
  pub same_epochs : t.epochs ≡ s.epochs
  pub same_attempts : t.attempts ≡ s.attempts
  pub same_locks : t.slot_locks ≡ s.slot_locks
  pub same_transitions : t.transition_locks ≡ s.transition_locks
  pub change : PhaseChange s.attempts s.phases t.phases

pub kept : (s : Store) → OnPhases s s
kept s = record {
  same_epochs = refl;
  same_attempts = refl;
  same_locks = refl;
  same_transitions = refl;
  change = same;
}

pub ends : (s t u : Store) → OnPhases s u → ◌≡◌ {A = Stored Store} (ok u) (ok t) → OnPhases s t
ends s t u h e = let o : u ≡ t = ground (arith, e) in subst (OnPhases s) o h

pub ends_with :
    {A : Type 0} (a b : A) (s t u : Store)
    → OnPhases s u
    → ◌≡◌ {A = Stored (A × Store)} (ok (a, u)) (ok (b, t))
    → OnPhases s t
ends_with a b s t u h e = let o : u ≡ t = ground (arith, e) in subst (OnPhases s) o h

insert_phase-ok :
    (attempts : List AttemptRow) (r : PhaseRow) (rows after : List PhaseRow)
    → found (select (at_session r.bid r.epoch r.sid) attempts) ≡ true
    → insert_phase r rows ≡ ok after
    → PhaseChange attempts rows after
insert_phase-ok attempts r rows after known h =
    let (free, rest) =
      raise_if-ok
        (found (select (at_scope r.bid r.epoch r.sid r.party_id) rows)
          || found (select (at_phase r.phase_instance_id) rows))
        _ _ _ h in
    let e : r ∷ rows ≡ after = ground (arith, rest) in
    elim (Option-cases (select (at_phase r.phase_instance_id) rows)) [
      | inl q ↦ elim (Option-cases (select (at_scope r.bid r.epoch r.sid r.party_id) rows)) [
        | inl p ↦ subst (PhaseChange attempts rows) e (added r q p known)
        | inr (x, p) ↦ absurd (ground (arith, free, p))
      ]
      | inr (x, q) ↦ absurd (ground (arith, free, q))
    ]

reserve_over-OnPhases :
    (crypto : Crypto) (fresh : PhaseRow) (digest : Text) (s t : Store) (o : Option PhaseRow)
    (v : PhaseReservation)
    → found (select (at_session fresh.bid fresh.epoch fresh.sid) s.attempts) ≡ true
    → reserve_over crypto fresh digest s o ≡ ok (v, t)
    → OnPhases s t
reserve_over-OnPhases crypto fresh digest s t (some x) v known h =
    let (_, h1) = raise_if-ok (is_unresumable x.state) _ _ _ h in
    let (_, h2) =
      raise_if-ok
        (not (x.selected_digest == fresh.selected_digest)
          || not (x.freshness_digest == fresh.freshness_digest))
        _ _ _ h1 in
    ends_with (reservation_of x) v s t s (kept s) h2
reserve_over-OnPhases crypto fresh digest s t none v known h =
    let (rows, put, rest) = bind-ok (insert_phase fresh s.phases) _ _ h in
    ends_with (reservation_of fresh) v s t _
      (record {
        same_epochs = refl;
        same_attempts = refl;
        same_locks = refl;
        same_transitions = refl;
        change = insert_phase-ok s.attempts fresh s.phases rows known put;
      })
      rest

or_raise-some : {A : Type 0} (o : Option A) (x : A) → or_raise o invalid_state ≡ ok x → o ≡ some x
or_raise-some none x h = absurd (cc)
or_raise-some (some y) x h = cc

pub reserve_commitment-OnPhases :
    (crypto : Crypto) (token : Text) (c : CommitmentRequest) (s t : Store) (v : PhaseReservation)
    → reserve_commitment crypto token c s ≡ ok (v, t)
    → OnPhases s t
unfolding reserve_commitment
reserve_commitment-OnPhases crypto token c s t v h =
    let (_, _, h1) = bind-ok (check_commitment c) _ _ h in
    let (row, _, h2) = bind-ok (or_raise (select (at_epoch c.bid c.epoch) s.epochs) _) _ _ h1 in
    let (_, h3) =
      raise_if-ok (not (is_active row.status) || not (row.party_id == c.party_id)) _ _ _ h2 in
    let (attempt, k, h4) =
      bind-ok (or_raise (select (at_session c.bid c.epoch c.sid) s.attempts) invalid_state) _ _
        h3 in
    let (_, h5) =
      raise_if-ok
        (not (attempt.tpass_request_hash == tpass_hash crypto c.request)
          || not (attempt.certificate_hash == c.certificate_hash))
        _ _ _ h4 in
    reserve_over-OnPhases crypto (new_phase crypto token c) attempt.request_digest s t
      (select (at_scope c.bid c.epoch c.sid c.party_id) s.phases) v
      (ap found (or_raise-some (select (at_session c.bid c.epoch c.sid) s.attempts) attempt k)) h5

-- An UPDATE of the phase that was selected.
moves :
    (s t : Store) (id : Text) (change : PhaseRow → PhaseRow) (row : PhaseRow)
    → select (at_phase id) s.phases ≡ some row
    → ((x : PhaseRow) → Keeps x (change x))
    → Forward row (change row)
    → t.epochs ≡ s.epochs
    → t.attempts ≡ s.attempts
    → t.slot_locks ≡ s.slot_locks
    → t.transition_locks ≡ s.transition_locks
    → t.phases ≡ update (at_phase id) change s.phases
    → OnPhases s t
moves s t id change row at keeps on e a l m p = record {
  same_epochs = e;
  same_attempts = a;
  same_locks = l;
  same_transitions = m;
  change =
      subst (PhaseChange s.attempts s.phases) (sym p) (
        changed id change keeps
          λ x h. subst (λ z. Forward z (change z)) (ground (arith, at, h)) on);
}

not-false : (b : Bool) → not b ≡ false → b ≡ true
not-false b h = ground (arith, h)

pub store_commitment-OnPhases :
    (crypto : Crypto) (id : Text) (b : Bytes) (s t : Store)
    → store_commitment crypto id b s ≡ ok t
    → OnPhases s t
unfolding store_commitment
store_commitment-OnPhases crypto id b s t h =
    let (_, _, h1) = bind-ok (check_hex 32 id) _ _ h in
    let (_, h2) = raise_if-ok (length b == 0) _ _ _ h1 in
    let (row, k, h3) = bind-ok (or_raise (select (at_phase id) s.phases) invalid_state) _ _ h2 in
    let (pending, h4) = raise_if-ok (not (is_intent row.state)) _ _ _ h3 in
    ends s t _
      (moves s _ id (set_commitment b) row (or_raise-some (select (at_phase id) s.phases) row k)
        (set_commitment-Keeps b)
        (set_commitment-Forward b row (not-false (is_intent row.state) pending)) refl refl refl refl
        refl)
      h4

pub store_response-OnPhases :
    (crypto : Crypto) (id : Text) (b : Bytes) (s t : Store)
    → store_response crypto id b s ≡ ok t
    → OnPhases s t
unfolding store_response
store_response-OnPhases crypto id b s t h =
    let (_, _, h1) = bind-ok (check_hex 32 id) _ _ h in
    let (_, h2) = raise_if-ok (length b == 0) _ _ _ h1 in
    let (row, k, h3) = bind-ok (or_raise (select (at_phase id) s.phases) invalid_state) _ _ h2 in
    let (pending, h4) = raise_if-ok (not (is_stored row.state)) _ _ _ h3 in
    ends s t _
      (moves s _ id (set_response b) row (or_raise-some (select (at_phase id) s.phases) row k)
        (set_response-Keeps b)
        (set_response-Forward b row (not-false (is_stored row.state) pending)) refl refl refl refl
        refl)
      h4

lose_from-OnPhases :
    (crypto : Crypto) (id : Text) (row : PhaseRow) (s t : Store) (z : PhaseState)
    → row.state ≡ z
    → select (at_phase id) s.phases ≡ some row
    → lose_from crypto id row s z ≡ ok t
    → OnPhases s t
lose_from-OnPhases crypto id row s t responded e at h = absurd (cc)
lose_from-OnPhases crypto id row s t lost e at h = ends s t s (kept s) h
lose_from-OnPhases crypto id row s t intent e at h =
    ends s t _
      (moves s _ id set_lost row at set_lost-Keeps (set_lost-Forward row (ap is_answered e)) refl
        refl refl refl refl)
      h
lose_from-OnPhases crypto id row s t commitment_stored e at h =
    ends s t _
      (moves s _ id set_lost row at set_lost-Keeps (set_lost-Forward row (ap is_answered e)) refl
        refl refl refl refl)
      h

pub mark_phase_lost-OnPhases :
    (crypto : Crypto) (id : Text) (s t : Store) → mark_phase_lost crypto id s ≡ ok t → OnPhases s t
unfolding mark_phase_lost
mark_phase_lost-OnPhases crypto id s t h =
    let (_, _, h1) = bind-ok (check_hex 32 id) _ _ h in
    let (row, k, h2) = bind-ok (or_raise (select (at_phase id) s.phases) invalid_state) _ _ h1 in
    lose_from-OnPhases crypto id row s t row.state refl
      (or_raise-some (select (at_phase id) s.phases) row k) h2
