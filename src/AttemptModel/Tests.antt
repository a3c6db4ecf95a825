-- ===== src/AttemptModel/Tests.antt =====
-- Runs of the attempt model, and its theorems at them.
use locus_v.Prelude.{ℕ, ◌≡◌, refl, ◌↔◌, Bool, true, false, none, some, List, [], ◌∷◌, arith}
use locus_v.Prelude.Results.{ok, Returns}
use locus_v.AttemptModel.State.{
  request_a, request_b, ModelState, ModelScenario, PartyState,
  conflicting_authorization_certificates, authorization_after_final_retirement,
}
use locus_v.AttemptModel.Party.{validate, initial_state}
use locus_v.Prelude.Sets.{is_subset}
use locus_v.AttemptModel.Scenarios.{
  baseline_concurrency, single_rollback_quorum, single_rollback_anchor, double_rollback_anchor,
}
use locus_v.AttemptModel.Successors.{Successor, successors}
use locus_v.AttemptModel.Violation.{violation}
use locus_v.AttemptModel.Valid.{Fits, validate-Fits}
use locus_v.AttemptModel.Reach.{Reach}
use locus_v.AttemptModel.Families.{
  Family, votes, prepares, certificates, installs, reconciles, rollbacks, evaluations,
}
use locus_v.AttemptModel.Run.{Run, run_on, turn, begin}
use locus_v.AttemptModel.Bounds.{reachable_reports, IsForkOrLate}
use locus_v.AttemptModel.Forking.{quorum_scenario, revival_reachable, fork_reachable}
use locus_v.AttemptModel.Search.{Outcome, SearchResult, explore_scenario}
use locus_v.AttemptModel.Exploration.{Explains, explore_scenario-Explains}
use locus_v.AttemptModel.Verdicts.{IsCleared, anchored_search_clears, quorum_search_clears}
use locus_v.AttemptModel.Anchor.{anchor_safety}
use locus_v.AttemptModel.Quorum.{quorum_safety}

abbrev any_order : Successor → Successor → Bool
any_order _ _ = true

-- Two votes, two prepares, a certificate and two installations.
abbrev first_slot : List (Family × ℕ)
first_slot =
    (votes, 0)
    ∷ (votes, 0)
    ∷ (prepares, 0)
    ∷ (prepares, 0)
    ∷ (certificates, 0)
    ∷ (installs, 1)
    ∷ (installs, 1)
    ∷ []

abbrev baseline_run : Run any_order baseline_concurrency
baseline_run = run_on (begin any_order baseline_concurrency) first_slot

baseline_certificates : baseline_run.last.certificates ≡ (request_a ∷ []) ∷ []
unfolding run_on
baseline_certificates = refl

-- The same with an evaluation, a restored snapshot and a second slot.
abbrev anchored_run : Run any_order single_rollback_anchor
anchored_run =
    run_on (run_on (begin any_order single_rollback_anchor) first_slot)
      ((evaluations, 0) ∷ (rollbacks, 1) ∷ (reconciles, 0) ∷ (votes, 0) ∷ [])

anchored_outcome :
    (anchored_run.last.evaluated ≡ request_a ∷ []) × (anchored_run.last.rollback_count ≡ 1)
unfolding run_on
anchored_outcome = (refl, refl)

abbrev locked_party : PartyState
locked_party = record {
  chain = request_a ∷ [];
  lock = some (request_a ∷ request_b ∷ []);
  phase = 1;
  ready = true;
  active = true;
}

validate-Fits_example : (validate locked_party ≡ ok tt) ↔ Fits locked_party
validate-Fits_example = validate-Fits locked_party

reachable_reports_example : Returns IsForkOrLate (violation anchored_run.last)
reachable_reports_example =
    reachable_reports any_order single_rollback_anchor anchored_run.last anchored_run.reach

anchor_safety_example : violation anchored_run.last ≡ ok none
anchor_safety_example =
    anchor_safety any_order single_rollback_anchor anchored_run.last refl anchored_run.reach

quorum_safety_example : violation baseline_run.last ≡ ok none
quorum_safety_example =
    quorum_safety any_order baseline_concurrency baseline_run.last refl refl refl baseline_run.reach

fork_reachable_example :
    (s : ModelState) × Reach any_order
      (quorum_scenario any_order "single-honest-rollback-quorum-v1" 1 14 160_000
        (some conflicting_authorization_certificates)
        false)
      s
    × (violation s ≡ ok (some conflicting_authorization_certificates))
fork_reachable_example =
    fork_reachable any_order "single-honest-rollback-quorum-v1" 1 14 160_000
      (some conflicting_authorization_certificates) (omega arith)

revival_reachable_example :
    (s : ModelState) × Reach any_order
      (quorum_scenario any_order "retired-epoch-double-rollback-quorum-v1" 2 8 40_000
        (some authorization_after_final_retirement)
        true)
      s
    × (violation s ≡ ok (some authorization_after_final_retirement))
revival_reachable_example =
    revival_reachable any_order "retired-epoch-double-rollback-quorum-v1" 2 8 40_000
      (some authorization_after_final_retirement)

explore_scenario-Explains_example :
    (r : SearchResult) × (explore_scenario any_order single_rollback_quorum ≡ some (ok r))
    × Explains any_order single_rollback_quorum r
explore_scenario-Explains_example = explore_scenario-Explains any_order single_rollback_quorum

anchored_search_clears_example : IsCleared any_order double_rollback_anchor
anchored_search_clears_example = anchored_search_clears any_order double_rollback_anchor refl

quorum_search_clears_example : IsCleared any_order baseline_concurrency
quorum_search_clears_example = quorum_search_clears any_order baseline_concurrency refl refl refl

-- A small search, run to its end: with one state allowed it is cut off at the first successor.
abbrev tiny : ModelScenario
tiny = record baseline_concurrency { max_states = 1 }

tiny_search :
    explore_scenario any_order tiny
    ≡ some (
        ok (record {
          outcome = Outcome.state_limit_reached;
          violation = none;
          trace = [];
          states_explored = 1;
          transitions_explored = 1;
          maximum_depth_reached = 0;
          truncated = true;
        }))
unfolding explore_scenario violation successors turn initial_state is_subset
tiny_search = refl
