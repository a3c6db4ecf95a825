-- ===== src/AttemptModel/Refines/Rules.antt =====
-- The guards and the replaced parties of the successor functions, against the step relation.
use locus_v.Prelude.{
  ℕ, ◌≡◌, refl, inl, inr, Bool, true, false, Option, some, List, [], ◌∷◌, map, arith, Bool-cases,
  if◌then◌else◌,
}
use locus_v.Prelude.Eq.{◌==◌, option_eq, list_eq, pair_eq, bool_eq, nat_eq, list_beq_iff}
use locus_v.Prelude.Lists.{get_elem?, All, In, here, there, All-append}
use locus_v.Prelude.Counts.{All-get_elem?, All-mono}
use locus_v.Prelude.Results.{ok, Returns}
use locus_v.AttemptModel.State.{
  request_eq, Chain, Checked, PartyState, party_eq, ModelState, ModelScenario, mode_eq,
}
use locus_v.AttemptModel.Successors.{
  Action, Successor, replaced, prepared_locks, held, adopts, head,
}
use locus_v.AttemptModel.Step.{Move, Step}
use locus_v.AttemptModel.Valid.{Fits, unlocked, locked, Returns-replaced}

-- A guard that skips a round: `if test: continue`.
pub Returns-unless :
    (P : Successor → Type 0) (b : Bool) (m : Checked (List Successor))
    → (b ≡ false → Returns (All P) m)
    → Returns (All P) (if b then ok [] else m)
Returns-unless P true m k = tt
Returns-unless P false m k = k refl

pub held-lock :
    (p : PartyState) (b : Bool) (lock : Option Chain)
    → p.lock ≡ lock
    → All (λ c. p.lock ≡ some c) (if b then held lock else [])
held-lock p true (some c) e = (e, tt)
held-lock p _ _ e = ground arith

-- Every prepared lock is the lock of a party.
pub prepared_locks-lock :
    (ps : List PartyState)
    → All (λ c. (p : PartyState) × In p ps × (p.lock ≡ some c)) (prepared_locks ps)
prepared_locks-lock [] = tt
prepared_locks-lock (p ∷ ps) =
    All-append _ (if p.phase == 2 then held p.lock else []) (prepared_locks ps)
      (All-mono (λ c. p.lock ≡ some c) _ _ (λ c e. (p, here refl, e))
        (held-lock p (p.phase == 2) p.lock refl))
      (All-mono _ _ (prepared_locks ps) (λ c (q, m, e). (q, there m, e)) (prepared_locks-lock ps))

pub readied : (p : PartyState) (b : Bool) → Fits p → Fits (record p { ready = b })
readied p b (unlocked l h) = unlocked l h
readied p b (locked r l h) = locked r l h

pub adopts-Fits : (p : PartyState) (c : Chain) (b : Bool) → Fits p → Fits (adopts p c b)
adopts-Fits p c b f = elim (Bool-cases (p.chain == c)) [
  | inl e ↦ same ((list_beq_iff p.chain c).0 e) f
  | inr e ↦ unlocked (rw e) (rw e)
]
  where
    same : p.chain ≡ c → Fits p → Fits (adopts p c b)
    same q (unlocked l h) = unlocked (ground arith) (ground arith)
    same q (locked r l h) =
        locked r (ground (arith, list_beq_iff p.chain c)) (ground (arith, list_beq_iff p.chain c))

pub heads-peer :
    (ps : List PartyState)
    → All (λ h. (peer : PartyState) × In peer ps × (head peer ≡ h)) (map head ps)
heads-peer [] = tt
heads-peer (p ∷ ps) = (
  (p, here refl, refl),
  All-mono _ _ (map head ps) (λ c (q, m, e). (q, there m, e)) (heads-peer ps),
)

pub Returns-if :
    (P : Successor → Type 0) (b : Bool) (m n : Checked (List Successor))
    → (b ≡ true → Returns (All P) m)
    → (b ≡ false → Returns (All P) n)
    → Returns (All P) (if b then m else n)
Returns-if P true m n k j = k refl
Returns-if P false m n k j = j refl

-- A successor that a step of `s` leads to.
abbrev pub IsStep : ModelState → ModelScenario → Successor → Type 0
IsStep s sc x = Step sc s x.1

module _ (s : ModelState) (sc : ModelScenario) (fits : All Fits s.parties) where
  -- A replaced party makes a step if it makes a move and fits.
  pub moved :
      (i : ℕ) (p q : PartyState) (a : Action)
      → get_elem? s.parties i ≡ some p
      → Fits q
      → Move sc s p q
      → Returns (All (IsStep s sc)) (replaced s i q a)
  moved i p q a e f m = Returns-replaced (IsStep s sc) s i q a fits f (Step.moves i p q e m refl)

  pub Fits-at : (i : ℕ) {p : PartyState} → get_elem? s.parties i ≡ some p → Fits p
  Fits-at i e = All-get_elem? Fits s.parties i fits e
