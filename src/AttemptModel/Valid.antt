-- ===== src/AttemptModel/Valid.antt =====
-- What `PartyState.validate` accepts, and that the loops of the model stay in range.
use locus_v.Prelude.{
  ℕ, suc, ◌+◌, ◌<◌, ◌≡◌, refl, ◌↔◌, ◌⊎◌, inl, inr, false, Option, none, some, List, [], ◌∷◌, ◌++◌,
  arith, Bool-cases, Option-cases,
}
use locus_v.Prelude.Eq.{◌==◌, option_eq, list_eq, list_beq_iff}
use locus_v.Prelude.Lists.{
  length, get_elem?, set, drop_last, All, length-append, drop_last-append, append_last,
}
use locus_v.Prelude.Counts.{All-set, All-In, All-mono, get_elem?_total}
use locus_v.Prelude.Results.{ok, ◌>>=◌, Returns, Returns-gather}
use locus_v.AttemptModel.State.{
  Request, request_eq, Chain, Checked, PartyState, ModelState, party_eq,
}
use locus_v.AttemptModel.Party.{
  misfits, validate, validate_all, canonical_parties, replace_party, unique_from,
  unique_party_indices,
}
use locus_v.AttemptModel.Successors.{Successor, Action, for_parties, replaced}
use locus_v.AttemptModel.Step.{with_party}

-- A party holds no lock, in phase 0, or a lock on one request more than its chain.
pub data Fits (p : PartyState) : Type 0 where
  unlocked : p.lock ≡ none → p.phase ≡ 0 → Fits p
  locked :
      (r : Request) → p.lock ≡ some (p.chain ++ r ∷ []) → (p.phase ≡ 1) ⊎ (p.phase ≡ 2) → Fits p

misfits-append : (c : Chain) (r : Request) → misfits c (some (c ++ r ∷ [])) ≡ false
misfits-append c r = ground (
  arith,
  length-append c (r ∷ []),
  drop_last-append c r,
  list_beq_iff (drop_last (c ++ r ∷ [])) c,
)

validate_of_Fits : (p : PartyState) → Fits p → validate p ≡ ok tt
unfolding validate
validate_of_Fits p (unlocked l h) = ground arith
validate_of_Fits p (locked r l h) = rw l (ground (arith, misfits-append p.chain r))

Fits-of_validate : (p : PartyState) → validate p ≡ ok tt → Fits p
unfolding validate
Fits-of_validate p h = elim (Option-cases p.lock) [
  | inl e ↦ unlocked e (ground arith)
  | inr (c, e) ↦
      let (r, q) =
        append_last p.chain c (ground arith) (ground (arith, list_beq_iff (drop_last c) p.chain)) in
      locked r (ground (arith, e, q)) (ground arith)
]

-- `validate` returns exactly on the parties that hold no lock in phase 0, or in phase 1 or 2 a
-- lock on their chain with one more request.
pub validate-Fits : (p : PartyState) → (validate p ≡ ok tt) ↔ Fits p
validate-Fits p = (Fits-of_validate p, validate_of_Fits p)

pub validate_all-Fits : (ps : List PartyState) → All Fits ps → validate_all ps ≡ ok tt
unfolding validate_all
validate_all-Fits [] h = refl
validate_all-Fits (p ∷ ps) h = rw (validate_of_Fits p h.0, ◌>>=◌) (validate_all-Fits ps h.1)

-- The write of a party that fits succeeds.
pub replace_party_lem :
    (s : ModelState) (i : ℕ) (q : PartyState)
    → All Fits s.parties
    → Fits q
    → replace_party s i q ≡ ok (with_party s i q)
unfolding replace_party canonical_parties
replace_party_lem s i q h f =
    rw (validate_all-Fits (set s.parties i q) (All-set Fits s.parties i q f h), ◌>>=◌)

unique_from-bounds :
    (n : ℕ) (previous : Option PartyState) (ps : List PartyState)
    → All (λ j. j < n + length ps) (unique_from n previous ps)
unique_from-bounds n previous [] = tt
unique_from-bounds n previous (p ∷ ps) = elim (Bool-cases (previous == some p)) [
  | inl e ↦
      rw (All, e) (widen (unique_from (suc n) previous ps) (unique_from-bounds (suc n) previous ps))
  | inr e ↦
      rw (All, e)
        (
          omega arith,
          widen (unique_from (suc n) (some p) ps) (unique_from-bounds (suc n) (some p) ps),
        )
]
  where
    widen :
        (js : List ℕ) → All (λ j. j < suc n + length ps) js → All (λ j. j < n + length (p ∷ ps)) js
    widen js =
        All-mono (λ j. j < suc n + length ps) (λ j. j < n + length (p ∷ ps)) js (λ j h. omega arith)

-- The loop over the distinct parties stays in range: it contributes what its body does.
pub Returns-for_parties :
    (P : Successor → Type 0) (s : ModelState) (body : ℕ → PartyState → Checked (List Successor))
    → ((i : ℕ) (p : PartyState) → get_elem? s.parties i ≡ some p → Returns (All P) (body i p))
    → Returns (All P) (for_parties s body)
unfolding for_parties unique_party_indices
Returns-for_parties P s body k = Returns-gather P _ (unique_from 0 none s.parties) λ i m.
    let (p, e) = get_elem?_total s.parties i (
      omega (
        arith,
        All-In (λ j. j < 0 + length s.parties) (unique_from 0 none s.parties)
            (unique_from-bounds 0 none s.parties) m,
      )) in
    rw e (k i p e)

-- A single replaced party that fits is the one successor.
pub Returns-replaced :
    (P : Successor → Type 0) (s : ModelState) (i : ℕ) (q : PartyState) (a : Action)
    → All Fits s.parties
    → Fits q
    → P (a, with_party s i q)
    → Returns (All P) (replaced s i q a)
Returns-replaced P s i q a h f k = rw (replace_party_lem s i q h f) (k, tt)
