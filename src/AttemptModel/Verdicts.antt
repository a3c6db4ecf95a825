-- ===== src/AttemptModel/Verdicts.antt =====
-- The verdicts of the search in the scenarios that are safe.
use locus_v.Prelude.{◌≡◌, ◌≢◌, inl, inr, Bool, true, false, none, some}
use locus_v.Prelude.Results.{ok}
use locus_v.AttemptModel.State.{ModelState, ModelScenario}
use locus_v.AttemptModel.Party.{is_anchored}
use locus_v.AttemptModel.Successors.{Successor}
use locus_v.AttemptModel.Violation.{violation}
use locus_v.AttemptModel.Search.{counterexample, SearchResult, explore_scenario}
use locus_v.AttemptModel.Reach.{Reach}
use locus_v.AttemptModel.Anchor.{anchor_safety}
use locus_v.AttemptModel.Quorum.{quorum_safety}
use locus_v.AttemptModel.Exploration.{explore_scenario-Explains}

-- The search returns a result that names no violation.
abbrev pub IsCleared : (Successor → Successor → Bool) → ModelScenario → Type 0
IsCleared before sc =
    (r : SearchResult) × (explore_scenario before sc ≡ some (ok r))
    × (r.outcome ≢ counterexample)
    × (r.violation ≡ none)

cleared :
    (before : Successor → Successor → Bool) (sc : ModelScenario)
    → ((s : ModelState) → Reach before sc s → violation s ≡ ok none)
    → IsCleared before sc
cleared before sc safe =
    let (r, run, x) = explore_scenario-Explains before sc in
    elim x [
      | inl bad ↦ cc (safe bad.state bad.reached, bad.violates)
      | inr good ↦ (r, run, good.outcome, good.silent)
    ]

-- In a scenario with a monotonic anchor the search returns, whatever its bounds, and reports no
-- violation.
pub anchored_search_clears :
    (before : Successor → Successor → Bool) (sc : ModelScenario)
    → is_anchored sc ≡ true
    → IsCleared before sc
anchored_search_clears before sc h = cleared before sc (λ s r. anchor_safety before sc s h r)

-- In a scenario with no anchor and no rollbacks that starts from the active genesis the search
-- returns, whatever its bounds, and reports no violation.
pub quorum_search_clears :
    (before : Successor → Successor → Bool) (sc : ModelScenario)
    → is_anchored sc ≡ false
    → sc.rollback_limit ≡ 0
    → sc.retired_snapshot_seed ≡ false
    → IsCleared before sc
quorum_search_clears before sc h z a = cleared before sc (λ s r. quorum_safety before sc s h z a r)
