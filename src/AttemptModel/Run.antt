-- ===== src/AttemptModel/Run.antt =====
-- Reachable states by evaluation: a schedule names, at each step, a family and a place in its list.
use locus_v.Prelude.{ℕ, zero, suc, ◌≡◌, refl, Bool, false, Option, none, some, List, [], ◌∷◌, leb}
use locus_v.Prelude.Lists.{In, here, there}
use locus_v.Prelude.Counts.{sorted}
use locus_v.Prelude.Sets.{contains, to_set}
use locus_v.Prelude.Prefixes.{is_prefix}
use locus_v.Prelude.Results.{ok, raise, gather}
use locus_v.AttemptModel.Party.{validate_all, replace_party, unique_party_indices}
use locus_v.AttemptModel.State.{Checked, ModelState, ModelScenario}
use locus_v.AttemptModel.Successors.{
  Successor, for_parties, vote_successors, prepare_successors, certificate_successors,
  install_successors, crash_successors, reconcile_successors, rollback_anywhere,
  rollback_successors, evaluate_successors,
}
use locus_v.AttemptModel.Reach.{Reach, start, initial_of, initial_state_lem}
use locus_v.AttemptModel.Families.{Lists, Family, family, Reach-family}

pub record Run (before : Successor → Successor → Bool) (sc : ModelScenario) : Type 0 where
  pub last : ModelState
  pub reach : Reach before sc last

pick : (xs : List Successor) → ℕ → Option ((x : Successor) × In x xs)
pick [] k = none
pick (x ∷ xs) zero = some (x, here refl)
pick (x ∷ xs) (suc k) = elim (pick xs k) [ none ↦ none | some (y, m) ↦ some (y, there m) ]

choose : (m : Checked (List Successor)) → ℕ → Option ((x : Successor) × Lists x m)
unfolding pick
choose (ok xs) k = pick xs k
choose (raise e) k = none

-- A choice that is not there changes nothing.
unfoldable pub turn :
    {before : Successor → Successor → Bool} {sc : ModelScenario}
    → Run before sc
    → Family × ℕ
    → Run before sc
unfolding choose gather contains to_set sorted is_prefix validate_all replace_party
    unique_party_indices for_parties vote_successors prepare_successors certificate_successors
    install_successors crash_successors reconcile_successors rollback_successors evaluate_successors
turn {before} {sc} r (f, k) = elim (choose (family f r.last sc) k) [
  | none ↦ r
  | some ((a, t), m) ↦ record { last = t; reach = Reach-family before sc r.reach f a m }
]

unfoldable pub run_on :
    {before : Successor → Successor → Bool} {sc : ModelScenario}
    → Run before sc
    → List (Family × ℕ)
    → Run before sc
unfolding turn
run_on r [] = r
run_on r (c ∷ cs) = run_on (turn r c) cs

abbrev pub begin : (before : Successor → Successor → Bool) (sc : ModelScenario) → Run before sc
begin before sc = record { last = initial_of sc; reach = start (initial_state_lem sc) }

-- A rollback by hand, where the limit is a variable.
unfoldable pub roll_back :
    {before : Successor → Successor → Bool} {sc : ModelScenario} (r : Run before sc)
    → leb sc.rollback_limit r.last.rollback_count ≡ false
    → ℕ
    → Run before sc
unfolding turn
roll_back {before} {sc} r below k = elim (choose (rollback_anywhere r.last) k) [
  | none ↦ r
  | some ((a, t), m) ↦ record {
    last = t;
    reach = Reach-family before sc r.reach Family.rollbacks a (rw (rollback_successors, below) m);
  }
]
