-- ===== src/PartyStore/PhaseBudget.antt =====
-- The attempt budget of prototype/locus/party_store.py bounds the phases of a party.
use locus_v.Prelude.{
  ℕ, ◌≤◌, Bool, true, false, some, List, [], ◌∷◌, ◌≡◌, sym, subst, ◌∙◌, arith, Bool-cases, inl, inr,
  ◌&&◌,
}
use locus_v.Prelude.Eq.{◌==◌, nat_eq, list_eq, eq_of_beq, beq_self}
use locus_v.Prelude.Lists.{count}
use locus_v.Certificates.Values.{Text}
use locus_v.Certificates.Hash.{Crypto}
use locus_v.PartyStore.Tables.{
  Store, EpochRow, AttemptRow, PhaseRow, empty_store, select, found, at_epoch, at_session,
}
use locus_v.PartyStore.Rows.{Distinct}
use locus_v.PartyStore.Matching.{count-Distinct, count-either, count-All, count-never}
use locus_v.PartyStore.PhaseTable.{same_scope, HasAttempt}
use locus_v.PartyStore.PhaseLaws.{Reach-IsPhases, All-mono}
use locus_v.PartyStore.Accounts.{in_epoch}
use locus_v.PartyStore.Budget.{attempts-IsBudgeted}
use locus_v.PartyStore.Steps.{Reach}

-- The phases of one party in one epoch.
abbrev pub of_party : Text → ℕ → ℕ → PhaseRow → Bool
of_party bid epoch party r = r.bid == bid && r.epoch == epoch && r.party_id == party

-- The phase of an attempt.
abbrev of_attempt : Text → ℕ → ℕ → AttemptRow → PhaseRow → Bool
of_attempt bid epoch party a r = of_party bid epoch party r && at_session r.bid r.epoch r.sid a

abbrev covered : Text → ℕ → ℕ → List AttemptRow → PhaseRow → Bool
covered bid epoch party attempts r =
    of_party bid epoch party r && found (select (at_session r.bid r.epoch r.sid) attempts)

-- The fields that the tests compare.
of_attempt-fields :
    (bid : Text) (epoch party : ℕ) (a : AttemptRow) (r : PhaseRow)
    → of_attempt bid epoch party a r ≡ true
    → (r.bid ≡ bid)
      × (r.epoch ≡ epoch)
      × (r.party_id ≡ party)
      × (a.bid ≡ r.bid)
      × (a.epoch ≡ r.epoch)
      × (a.sid ≡ r.sid)
of_attempt-fields bid epoch party a r h = (
  eq_of_beq r.bid bid (ground (arith, h)),
  eq_of_beq r.epoch epoch (ground (arith, h)),
  eq_of_beq r.party_id party (ground (arith, h)),
  eq_of_beq a.bid r.bid (ground (arith, h)),
  eq_of_beq a.epoch r.epoch (ground (arith, h)),
  eq_of_beq a.sid r.sid (ground (arith, h)),
)

scope-beq :
    (x y : PhaseRow)
    → y.bid ≡ x.bid
    → y.epoch ≡ x.epoch
    → y.sid ≡ x.sid
    → y.party_id ≡ x.party_id
    → same_scope x y ≡ true
scope-beq x y b e s p =
    let hb : (y.bid == x.bid) ≡ true = subst (λ z. (y.bid == z) ≡ true) b (beq_self y.bid) in
    let he : (y.epoch == x.epoch) ≡ true =
      subst (λ z. (y.epoch == z) ≡ true) e (beq_self y.epoch) in
    let hs : (y.sid == x.sid) ≡ true = subst (λ z. (y.sid == z) ≡ true) s (beq_self y.sid) in
    let hp : (y.party_id == x.party_id) ≡ true =
      subst (λ z. (y.party_id == z) ≡ true) p (beq_self y.party_id) in
    ground (arith, hb, he, hs, hp)

outside :
    (bid : Text) (epoch party : ℕ) (a : AttemptRow)
    → in_epoch bid epoch a ≡ false
    → (r : PhaseRow) → of_attempt bid epoch party a r ≡ false
outside bid epoch party a h r = elim (Bool-cases (of_attempt bid epoch party a r)) [
  | inl k ↦
      let (b, e, _, ab, ae, _) = of_attempt-fields bid epoch party a r k in
      let there : (a.bid == bid) ≡ true =
        subst (λ z. (a.bid == z) ≡ true) (ab ∙ b) (beq_self a.bid) in
      let then : (a.epoch == epoch) ≡ true =
        subst (λ z. (a.epoch == z) ≡ true) (ae ∙ e) (beq_self a.epoch) in
      absurd (ground (arith, h, there, then))
  | inr k ↦ k
]

-- An attempt has at most one phase of a party, and none outside its epoch.
one_phase :
    (bid : Text) (epoch party : ℕ) (a : AttemptRow) (rows : List PhaseRow)
    → Distinct same_scope rows
    → count (of_attempt bid epoch party a) rows ≤ count (in_epoch bid epoch) (a ∷ [])
one_phase bid epoch party a rows d = elim (Bool-cases (in_epoch bid epoch a)) [
  | inl e ↦
      let one =
        count-Distinct same_scope (of_attempt bid epoch party a) rows
          (λ x y h k.
            let (xb, xe, xp, _, _, xs) = of_attempt-fields bid epoch party a x h in
            let (yb, ye, yp, _, _, ys) = of_attempt-fields bid epoch party a y k in
            scope-beq x y (yb ∙ sym xb) (ye ∙ sym xe) (sym ys ∙ xs) (yp ∙ sym xp))
          d in
      rw e (omega (arith, one))
  | inr e ↦
      let nothing = count-never (of_attempt bid epoch party a) rows (outside bid epoch party a e) in
      rw e (omega (arith, nothing))
]

-- The phases of the listed attempts are no more than the attempts.
count-covered :
    (bid : Text) (epoch party : ℕ) (attempts : List AttemptRow) (rows : List PhaseRow)
    → Distinct same_scope rows
    → count (covered bid epoch party attempts) rows ≤ count (in_epoch bid epoch) attempts
count-covered bid epoch party [] rows d =
    let nothing = count-never (covered bid epoch party []) rows (λ r. ground arith) in
    omega (arith, nothing)
count-covered bid epoch party (a ∷ attempts) rows d =
    let one = one_phase bid epoch party a rows d in
    let rest = count-covered bid epoch party attempts rows d in
    let split =
      count-either (covered bid epoch party (a ∷ attempts)) (of_attempt bid epoch party a)
        (covered bid epoch party attempts) rows
        (λ r h. elim (Bool-cases (at_session r.bid r.epoch r.sid a)) [
          | inl k ↦ ground (arith, h, k)
          | inr k ↦ ground (arith, h, k)
        ]) in
    omega (arith, one, rest, split)

-- After any of the transactions in `Step`, from an empty party store, the phases that a party has
-- begun in an epoch, open, answered or lost, are at most as many as the epoch's budget.
pub phases-IsBudgeted :
    (crypto : Crypto) (s : Store) (bid : Text) (epoch party : ℕ) (row : EpochRow)
    → Reach crypto empty_store s
    → select (at_epoch bid epoch) s.epochs ≡ some row
    → count (of_party bid epoch party) s.phases ≤ row.budget
phases-IsBudgeted crypto s bid epoch party row r at =
    let known =
      Reach-IsPhases crypto empty_store s r
        (record { identifiers = tt; scopes = tt; authorized = tt }) in
    let budgeted = attempts-IsBudgeted crypto s bid epoch row r at in
    let all_covered =
      count-All (of_party bid epoch party) (covered bid epoch party s.attempts) s.phases (
        All-mono (HasAttempt s.attempts) _ s.phases (λ x h k. ground (arith, h, k))
          known.authorized) in
    let bounded = count-covered bid epoch party s.attempts s.phases known.scopes in
    omega (arith, all_covered, bounded, budgeted.within, budgeted.attempts)
