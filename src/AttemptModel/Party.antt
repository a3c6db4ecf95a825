-- ===== src/AttemptModel/Party.antt =====
-- `PartyState.validate`, the canonical order of the parties, `_replace_party`, `_initial_state` and
-- `_unique_party_indices` of prototype_final/locus/attempt_model.py.
use Prim.Native.Nat.{compare, Ordering}
use locus_v.Prelude.{
  ℕ, zero, suc, ◌+◌, Bool, true, false, not, ◌||◌, Option, none, some, List, [], ◌∷◌, if◌then◌else◌,
}
use locus_v.Prelude.Eq.{◌==◌, nat_eq, bool_eq, list_eq, option_eq}
use locus_v.Prelude.Lists.{length, set, drop_last}
use locus_v.Prelude.Counts.{sorted}
use locus_v.Prelude.Results.{ok, ◌>>=◌, ◌>>◌, raise_if}
use locus_v.AttemptModel.State.{
  Request, request_a, request_b, request_eq, Chain, invalid_party_phase, lock_and_phase_disagree,
  lock_does_not_extend, Checked, PartyState, genesis, party_eq, ModelState, ModelScenario,
  monotonic_anchor, mode_eq, honest_authorizers,
}

-- self.lock is None
abbrev pub is_none {ℓ} : {A : Type ℓ} → Option A → Bool
is_none none = true
is_none (some _) = false

-- The last test of `validate`.
abbrev pub misfits : Chain → Option Chain → Bool
misfits chain none = false
misfits chain (some lock) = not (length lock == length chain + 1) || not (drop_last lock == chain)

unfoldable pub validate : PartyState → Checked (Unit {0})
validate p = do
  raise_if (not (p.phase == 0 || p.phase == 1 || p.phase == 2)) invalid_party_phase
  raise_if (not (is_none p.lock == (p.phase == 0))) lock_and_phase_disagree
  raise_if (misfits p.chain p.lock) lock_does_not_extend

unfoldable pub validate_all : List PartyState → Checked (Unit {0})
unfolding validate
validate_all [] = ok tt
validate_all (p ∷ ps) = do validate p; validate_all ps

-- Python's order of tuples: the first difference decides.
abbrev then_by : Ordering → Ordering → Ordering
then_by Ordering.eq o = o
then_by o _ = o

abbrev compare_request : Request → Request → Ordering
compare_request request_a request_b = Ordering.lt
compare_request request_b request_a = Ordering.gt
compare_request _ _ = Ordering.eq

abbrev compare_chain : Chain → Chain → Ordering
compare_chain [] [] = Ordering.eq
compare_chain [] (_ ∷ _) = Ordering.lt
compare_chain (_ ∷ _) [] = Ordering.gt
compare_chain (x ∷ xs) (y ∷ ys) = then_by (compare_request x y) (compare_chain xs ys)

abbrev compare_bool : Bool → Bool → Ordering
compare_bool false true = Ordering.lt
compare_bool true false = Ordering.gt
compare_bool _ _ = Ordering.eq

abbrev or_empty : Option Chain → Chain
or_empty none = []
or_empty (some c) = c

-- The order of `_party_key`.
abbrev compare_party : PartyState → PartyState → Ordering
compare_party p q = then_by (compare_chain p.chain q.chain) (
    then_by (compare_bool (not (is_none p.lock)) (not (is_none q.lock))) (
      then_by (compare_chain (or_empty p.lock) (or_empty q.lock)) (
        then_by (compare p.phase q.phase)
          (then_by (compare_bool p.ready q.ready) (compare_bool p.active q.active)))))

abbrev at_most : Ordering → Bool
at_most Ordering.gt = false
at_most _ = true

abbrev pub chain_le : Chain → Chain → Bool
chain_le a b = at_most (compare_chain a b)

abbrev pub request_le : Request → Request → Bool
request_le a b = at_most (compare_request a b)

abbrev pub party_le : PartyState → PartyState → Bool
party_le p q = at_most (compare_party p q)

-- The order of pairs `(chain, active)`.
abbrev pub head_le : Chain × Bool → Chain × Bool → Bool
head_le a b = at_most (then_by (compare_chain a.0 b.0) (compare_bool a.1 b.1))

unfoldable pub canonical_parties : List PartyState → Checked (List PartyState)
unfolding validate_all sorted
canonical_parties ps = do validate_all ps; ok (sorted party_le ps)

unfoldable pub replace_party : ModelState → ℕ → PartyState → Checked ModelState
unfolding canonical_parties
replace_party s i replacement = do
  ps ← canonical_parties (set s.parties i replacement)
  ok (record s { parties = ps })

-- A `ModelState` with the fields that have defaults.
abbrev pub fresh_state : List PartyState → ModelState
fresh_state ps = record {
  parties = ps;
  certificates = [];
  evaluated = [];
  rollback_count = 0;
  retired_finalized = false;
  post_retirement_certificate = false;
  post_retirement_evaluation = false;
  anchor_chain = [];
  anchor_retired = false;
}

abbrev pub is_anchored : ModelScenario → Bool
is_anchored sc = sc.reconciliation == monotonic_anchor

abbrev replicate {ℓ} : {A : Type ℓ} → ℕ → A → List A
replicate zero a = []
replicate (suc n) a = a ∷ replicate n a

-- The first component of what `_initial_state` returns; the seed trace is in `Search`.
unfoldable pub initial_state : ModelScenario → Checked ModelState
unfolding canonical_parties
initial_state sc =
    if sc.retired_snapshot_seed
    then (do
      ps ← canonical_parties (
          record genesis { ready = false }
          ∷ record genesis { ready = false }
          ∷ record genesis { active = false }
          ∷ [])
      ok (record (fresh_state ps) {
        rollback_count = 2;
        retired_finalized = true;
        anchor_retired = is_anchored sc;
      }))
    else (do ps ← canonical_parties (replicate honest_authorizers genesis); ok (fresh_state ps))

-- The loop of `_unique_party_indices`, with its counter and the party before.
abbrev pub unique_from : ℕ → Option PartyState → List PartyState → List ℕ
unique_from i previous [] = []
unique_from i previous (p ∷ ps) =
    let same = unique_from (suc i) previous ps in
    let fresh = i ∷ unique_from (suc i) (some p) ps in if previous == some p then same else fresh

unfoldable pub unique_party_indices : ModelState → List ℕ
unique_party_indices s = unique_from 0 none s.parties
