-- ===== src/PartyStore/PhaseTable.antt =====
-- What the table of phases of prototype/locus/party_store.py keeps under a change.
use locus_v.Prelude.{
  ℕ, Bool, true, none, some, List, ◌≡◌, sym, ap, subst, ◌∙◌, arith, Bool-cases, inl, inr, ◌&&◌,
}
use locus_v.Prelude.Eq.{◌==◌, nat_eq, list_eq, eq_of_beq}
use locus_v.Prelude.Lists.{All}
use locus_v.Certificates.Values.{Text}
use locus_v.PartyStore.Tables.{AttemptRow, PhaseRow, select, found, at_session}
use locus_v.PartyStore.Phases.{at_phase, at_scope}
use locus_v.PartyStore.Rows.{
  updated_row, select-update-some, select-here, Distinct, Distinct-update, All-update,
}
use locus_v.PartyStore.PhaseChange.{
  Keeps, Forward, Forward-refl, Forward-trans, PhaseChange, same, added, changed, both,
}
use locus_v.PartyStore.Losing.{same_phase}

abbrev pub same_scope : PhaseRow → PhaseRow → Bool
same_scope x y = at_scope x.bid x.epoch x.sid x.party_id y

-- The attempt of a phase is installed.
abbrev pub HasAttempt : List AttemptRow → PhaseRow → Type 0
HasAttempt attempts r = found (select (at_session r.bid r.epoch r.sid) attempts) ≡ true

-- Identifiers and keys are unique, and every phase has its attempt.
pub record IsPhases (attempts : List AttemptRow) (rows : List PhaseRow) : Type 0 where
  pub identifiers : Distinct same_phase rows
  pub scopes : Distinct same_scope rows
  pub authorized : All (HasAttempt attempts) rows

same_phase-Keeps : (x y : PhaseRow) → Keeps x y → same_phase y ≡ same_phase x
same_phase-Keeps x y k = ap at_phase k.same_id

at_phase-Keeps : (id : Text) (x y : PhaseRow) → Keeps x y → at_phase id y ≡ at_phase id x
at_phase-Keeps id x y k = ap (λ z. z == id) k.same_id

same_scope-Keeps : (x y : PhaseRow) → Keeps x y → same_scope y ≡ same_scope x
same_scope-Keeps x y k =
    ap (λ z. at_scope z y.epoch y.sid y.party_id) k.same_bid
    ∙ ap (λ z. at_scope x.bid z y.sid y.party_id) k.same_epoch
    ∙ ap (λ z. at_scope x.bid x.epoch z y.party_id) k.same_sid
    ∙ ap (λ z. at_scope x.bid x.epoch x.sid z) k.same_party

pub at_scope-Keeps :
    (bid : Text) (epoch : ℕ) (sid : Text) (party : ℕ) (x y : PhaseRow)
    → Keeps x y
    → at_scope bid epoch sid party y ≡ at_scope bid epoch sid party x
at_scope-Keeps bid epoch sid party x y k =
    ap (λ z. z == bid && y.epoch == epoch && y.sid == sid && y.party_id == party) k.same_bid
    ∙ ap (λ z. x.bid == bid && z == epoch && y.sid == sid && y.party_id == party) k.same_epoch
    ∙ ap (λ z. x.bid == bid && x.epoch == epoch && z == sid && y.party_id == party) k.same_sid
    ∙ ap (λ z. x.bid == bid && x.epoch == epoch && x.sid == sid && z == party) k.same_party

HasAttempt-Keeps :
    (attempts : List AttemptRow) (x y : PhaseRow)
    → Keeps x y
    → HasAttempt attempts x
    → HasAttempt attempts y
HasAttempt-Keeps attempts x y k h =
    ap (λ z. found (select (at_session z y.epoch y.sid) attempts)) k.same_bid
    ∙ ap (λ z. found (select (at_session x.bid z y.sid) attempts)) k.same_epoch
    ∙ ap (λ z. found (select (at_session x.bid x.epoch z) attempts)) k.same_sid
    ∙ h

pub change-IsPhases :
    (attempts : List AttemptRow) (rows after : List PhaseRow)
    → PhaseChange attempts rows after
    → IsPhases attempts rows
    → IsPhases attempts after
change-IsPhases attempts rows after same h = h
change-IsPhases attempts rows after (added r p q known) h = record {
  identifiers = (p, h.identifiers);
  scopes = (q, h.scopes);
  authorized = (known, h.authorized);
}
change-IsPhases attempts rows after (changed id change keeps on) h = record {
  identifiers =
      Distinct-update same_phase (at_phase id) change rows
        (λ x. same_phase-Keeps x (change x) (keeps x))
        (λ x y. at_phase-Keeps x.phase_instance_id y (change y) (keeps y)) h.identifiers;
  scopes =
      Distinct-update same_scope (at_phase id) change rows
        (λ x. same_scope-Keeps x (change x) (keeps x))
        (λ x y. at_scope-Keeps x.bid x.epoch x.sid x.party_id y (change y) (keeps y)) h.scopes;
  authorized =
      All-update (HasAttempt attempts) (at_phase id) change rows
        (λ x k. HasAttempt-Keeps attempts x (change x) (keeps x) k) h.authorized;
}
change-IsPhases attempts rows after (both {middle = m} f g) h =
    change-IsPhases attempts m after g (change-IsPhases attempts rows m f h)

-- A row that a statement with another identifier selects has that identifier too.
one_identifier :
    (rows : List PhaseRow) (id other : Text) (x : PhaseRow)
    → select (at_phase id) rows ≡ some x
    → at_phase other x ≡ true
    → select (at_phase other) rows ≡ some x
one_identifier rows id other x h k =
    let p = eq_of_beq x.phase_instance_id id (select-here (at_phase id) rows x h) in
    let q = eq_of_beq x.phase_instance_id other k in
    subst (λ z. select (at_phase z) rows ≡ some x) (sym p ∙ q) h

pub change-Forward :
    (attempts : List AttemptRow) (rows after : List PhaseRow) (id : Text) (x : PhaseRow)
    → PhaseChange attempts rows after
    → select (at_phase id) rows ≡ some x
    → (y : PhaseRow) × (select (at_phase id) after ≡ some y) × Forward x y
change-Forward attempts rows after id x same h = (x, h, Forward-refl x)
change-Forward attempts rows after id x (added r p q known) h = elim (Bool-cases (at_phase id r)) [
  | inl k ↦
      let free : select (at_phase id) rows ≡ none =
        subst (λ z. select (at_phase z) rows ≡ none) (eq_of_beq r.phase_instance_id id k) p in
      absurd (ground (arith, h, free))
  | inr k ↦ (x, rw k h, Forward-refl x)
]
change-Forward attempts rows after id x (changed other change keeps on) h = (
  updated_row (at_phase other) change x,
  select-update-some (at_phase id) (at_phase other) change rows x
      (λ y. at_phase-Keeps id y (change y) (keeps y)) h,
  elim (Bool-cases (at_phase other x)) [
    | inl k ↦ rw k (on x (one_identifier rows id other x h k))
    | inr k ↦ rw k (Forward-refl x)
  ],
)
change-Forward attempts rows after id x (both {middle = m} f g) h =
    let (y, at, first) = change-Forward attempts rows m id x f h in
    let (z, found_z, second) = change-Forward attempts m after id y g at in
    (z, found_z, Forward-trans x y z first second)
