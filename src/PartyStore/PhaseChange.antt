-- ===== src/PartyStore/PhaseChange.antt =====
-- What the transactions on phases in prototype/locus/party_store.py do to the table of phases.
use locus_v.Prelude.{
  ℕ, ◌≤◌, Bool, true, false, none, some, List, ◌∷◌, ◌≡◌, refl, sym, ap, subst, arith, ◌∙◌,
}
use locus_v.Prelude.Eq.{nat_eq, list_eq}
use locus_v.Certificates.Values.{Text, Bytes}
use locus_v.PartyStore.Tables.{
  PhaseState, intent, commitment_stored, responded, lost, AttemptRow, PhaseRow, select, update,
  found, at_session,
}
use locus_v.PartyStore.Phases.{at_phase, at_scope, is_open, is_intent, is_stored}
use locus_v.PartyStore.PhaseUpdates.{set_commitment, set_response, set_lost}

-- The place of a state in a phase's life.
abbrev pub rank : PhaseState → ℕ
rank intent = 0
rank commitment_stored = 1
rank _ = 2

-- The rows have one key.
pub record Keeps (x y : PhaseRow) : Type 0 where
  pub same_bid : y.bid ≡ x.bid
  pub same_epoch : y.epoch ≡ x.epoch
  pub same_sid : y.sid ≡ x.sid
  pub same_party : y.party_id ≡ x.party_id
  pub same_id : y.phase_instance_id ≡ x.phase_instance_id

-- The phase `x` has become `y`.
pub record Forward (x y : PhaseRow) : Type 0 where
  pub keeps : Keeps x y
  pub same_selected : y.selected_digest ≡ x.selected_digest
  pub same_freshness : y.freshness_digest ≡ x.freshness_digest
  pub later : rank x.state ≤ rank y.state
  pub committed : is_intent x.state ≡ false → y.commitment ≡ x.commitment
  pub closed : is_open x.state ≡ false → y ≡ x

Keeps-refl : (x : PhaseRow) → Keeps x x
Keeps-refl x = record {
  same_bid = refl;
  same_epoch = refl;
  same_sid = refl;
  same_party = refl;
  same_id = refl;
}

pub Forward-refl : (x : PhaseRow) → Forward x x
Forward-refl x = record {
  keeps = Keeps-refl x;
  same_selected = refl;
  same_freshness = refl;
  later = omega arith;
  committed = λ _. refl;
  closed = λ _. refl;
}

intent_facts : (z : PhaseState) → is_intent z ≡ true → (rank z ≡ 0) × (is_open z ≡ true)
intent_facts intent h = (refl, refl)
intent_facts commitment_stored h = absurd (cc)
intent_facts responded h = absurd (cc)
intent_facts lost h = absurd (cc)

stored_facts :
    (z : PhaseState)
    → is_stored z ≡ true
    → (rank z ≡ 1) × ((is_open z ≡ true) × (is_intent z ≡ false))
stored_facts intent h = absurd (cc)
stored_facts commitment_stored h = (refl, (refl, refl))
stored_facts responded h = absurd (cc)
stored_facts lost h = absurd (cc)

-- A phase that has not been answered.
abbrev pub is_answered : PhaseState → Bool
is_answered responded = true
is_answered _ = false

lost_facts :
    (z : PhaseState) → is_answered z ≡ false → (rank z ≤ 2) × (is_open z ≡ false → z ≡ lost)
lost_facts intent h = (omega arith, λ k. absurd (cc))
lost_facts commitment_stored h = (omega arith, λ k. absurd (cc))
lost_facts responded h = absurd (cc)
lost_facts lost h = (omega arith, λ k. refl)

pub set_commitment-Keeps : (b : Bytes) (x : PhaseRow) → Keeps x (set_commitment b x)
set_commitment-Keeps b x = record {
  same_bid = refl;
  same_epoch = refl;
  same_sid = refl;
  same_party = refl;
  same_id = refl;
}

pub set_commitment-Forward :
    (b : Bytes) (x : PhaseRow) → is_intent x.state ≡ true → Forward x (set_commitment b x)
set_commitment-Forward b x h =
    let (zero_rank, is_pending) = intent_facts x.state h in
    record {
      keeps = set_commitment-Keeps b x;
      same_selected = refl;
      same_freshness = refl;
      later = omega (arith, zero_rank);
      committed = λ k. absurd (cc);
      closed = λ k. absurd (cc);
    }

pub set_response-Keeps : (b : Bytes) (x : PhaseRow) → Keeps x (set_response b x)
set_response-Keeps b x = record {
  same_bid = refl;
  same_epoch = refl;
  same_sid = refl;
  same_party = refl;
  same_id = refl;
}

pub set_response-Forward :
    (b : Bytes) (x : PhaseRow) → is_stored x.state ≡ true → Forward x (set_response b x)
set_response-Forward b x h =
    let (one_rank, (is_pending, _)) = stored_facts x.state h in
    record {
      keeps = set_response-Keeps b x;
      same_selected = refl;
      same_freshness = refl;
      later = omega (arith, one_rank);
      committed = λ k. refl;
      closed = λ k. absurd (cc);
    }

pub set_lost-Keeps : (x : PhaseRow) → Keeps x (set_lost x)
set_lost-Keeps x = record {
  same_bid = refl;
  same_epoch = refl;
  same_sid = refl;
  same_party = refl;
  same_id = refl;
}

pub set_lost-Forward : (x : PhaseRow) → is_answered x.state ≡ false → Forward x (set_lost x)
set_lost-Forward x h =
    let (below, same) = lost_facts x.state h in
    record {
      keeps = set_lost-Keeps x;
      same_selected = refl;
      same_freshness = refl;
      later = below;
      committed = λ k. refl;
      closed = λ k. ap (λ z. record x { state = z }) (sym (same k));
    }

Keeps-trans : (x y z : PhaseRow) → Keeps x y → Keeps y z → Keeps x z
Keeps-trans x y z f g = record {
  same_bid = g.same_bid ∙ f.same_bid;
  same_epoch = g.same_epoch ∙ f.same_epoch;
  same_sid = g.same_sid ∙ f.same_sid;
  same_party = g.same_party ∙ f.same_party;
  same_id = g.same_id ∙ f.same_id;
}

pub Forward-trans : (x y z : PhaseRow) → Forward x y → Forward y z → Forward x z
Forward-trans x y z f g = record {
  keeps = Keeps-trans x y z f.keeps g.keeps;
  same_selected = g.same_selected ∙ f.same_selected;
  same_freshness = g.same_freshness ∙ f.same_freshness;
  later = omega (arith, f.later, g.later);
  committed = λ k. g.committed (begun x.state y.state k f.later) ∙ f.committed k;
  closed = λ k. g.closed (subst (λ r. is_open r.state ≡ false) (sym (f.closed k)) k) ∙ f.closed k;
}
  where
    begun : (a b : PhaseState) → is_intent a ≡ false → rank a ≤ rank b → is_intent b ≡ false
    begun intent b h k = absurd (cc)
    begun a commitment_stored h k = refl
    begun a responded h k = refl
    begun a lost h k = refl
    begun commitment_stored intent h k = absurd (omega arith)
    begun responded intent h k = absurd (omega arith)
    begun lost intent h k = absurd (omega arith)

-- How one transaction changes the table, where `attempts` are the installed attempts.
pub data PhaseChange (attempts : List AttemptRow) : List PhaseRow → List PhaseRow → Type 0 where
  same : {rows : List PhaseRow} → PhaseChange attempts rows rows
  added :
      {rows : List PhaseRow} (r : PhaseRow)
      → select (at_phase r.phase_instance_id) rows ≡ none
      → select (at_scope r.bid r.epoch r.sid r.party_id) rows ≡ none
      → found (select (at_session r.bid r.epoch r.sid) attempts) ≡ true
      → PhaseChange attempts rows (r ∷ rows)
  changed :
      {rows : List PhaseRow} (id : Text) (change : PhaseRow → PhaseRow)
      → ((x : PhaseRow) → Keeps x (change x))
      → ((x : PhaseRow) → select (at_phase id) rows ≡ some x → Forward x (change x))
      → PhaseChange attempts rows (update (at_phase id) change rows)
  both :
      {rows middle after : List PhaseRow}
      → PhaseChange attempts rows middle
      → PhaseChange attempts middle after
      → PhaseChange attempts rows after
