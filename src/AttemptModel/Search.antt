-- ===== src/AttemptModel/Search.antt =====
-- `explore_scenario` and `_trace` of prototype_final/locus/attempt_model.py: breadth-first search.
-- `seen` and `parents` are lists, the newest member first.
use locus_v.Prelude.{
  ℕ, zero, suc, ◌+◌, Bool, true, false, Option, none, some, List, [], ◌∷◌, ◌++◌, max, leb,
  if◌then◌else◌,
}
use locus_v.Prelude.Eq.{◌==◌}
use locus_v.Prelude.Lists.{length}
use locus_v.Prelude.Sets.{contains}
use locus_v.Prelude.Results.{ok, raise, ◌>>=◌}
use locus_v.AttemptModel.State.{Checked, ModelState, ModelScenario, Violation, state_eq}
use locus_v.AttemptModel.Party.{initial_state}
use locus_v.AttemptModel.Successors.{Action, Successor, successors}
use locus_v.AttemptModel.Violation.{violation}

pub data Outcome : Type 0 where
  counterexample state_limit_reached no_counterexample_within_bound : Outcome

pub record SearchResult : Type 0 where
  pub outcome : Outcome
  pub violation : Option Violation
  pub trace : List Action
  pub states_explored : ℕ
  pub transitions_explored : ℕ
  pub maximum_depth_reached : ℕ
  pub truncated : Bool

-- parents[child] = (previous, action)
pub record Parent : Type 0 where
  pub child : ModelState
  pub previous : ModelState
  pub action : Action

-- The variables of the loop.
pub record SearchState : Type 0 where
  pub queue : List (ModelState × ℕ)
  pub seen : List ModelState
  pub parents : List Parent
  pub transitions : ℕ
  pub maximum_depth : ℕ
  pub truncated : Bool

abbrev pub seed_trace : ModelScenario → List Action
seed_trace sc =
    if sc.retired_snapshot_seed then Action.seed_retirement ∷ Action.seed_snapshots ∷ [] else []

abbrev pub parent_of : List Parent → ModelState → Option Parent
parent_of [] cursor = none
parent_of (p ∷ ps) cursor =
    let older = parent_of ps cursor in if p.child == cursor then some p else older

-- The loop of `_trace`, whose appends and final `reverse` are a `∷` in front; `none` means that the
-- fuel ran out.
unfoldable pub trace_from : ℕ → List Parent → ModelState → List Action → Option (List Action)
trace_from zero parents cursor actions = none
trace_from (suc fuel) parents cursor actions = elim (parent_of parents cursor) [
  | none ↦ some actions
  | some p ↦ trace_from fuel parents p.previous (p.action ∷ actions)
]

-- The inner loop, over the sorted successors of `s` at depth `d`.
unfoldable pub expand : ModelScenario → ModelState → ℕ → List Successor → SearchState → SearchState
unfolding contains
expand sc s d [] st = st
expand sc s d ((a, t) ∷ xs) st =
    let counted : SearchState = record st { transitions = st.transitions + 1 } in
    let skipped : SearchState = expand sc s d xs counted in
    let added : SearchState = expand sc s d xs (record counted {
      seen = t ∷ st.seen;
      parents = (record { child = t; previous = s; action = a }) ∷ st.parents;
      queue = st.queue ++ (t, d + 1) ∷ [];
    }) in
    if contains st.seen t
    then skipped
    else if leb sc.max_states (length st.seen)
    then record counted { truncated = true; queue = [] }
    else added

-- A round of the outer loop returns or goes on.
pub data Turn : Type 0 where
  finished : SearchResult → Turn
  going : SearchState → Turn

abbrev pub exhausted : SearchState → SearchResult
exhausted st = record {
  outcome = if st.truncated then state_limit_reached else no_counterexample_within_bound;
  violation = none;
  trace = [];
  states_explored = length st.seen;
  transitions_explored = st.transitions;
  maximum_depth_reached = st.maximum_depth;
  truncated = st.truncated;
}

abbrev or_nothing : Option (List Action) → List Action
or_nothing none = []
or_nothing (some actions) = actions

abbrev pub refuted : ModelScenario → SearchState → ModelState → Violation → SearchResult
refuted sc st s v = record {
  outcome = counterexample;
  violation = some v;
  trace = seed_trace sc ++ or_nothing (trace_from (suc (length st.parents)) st.parents s []);
  states_explored = length st.seen;
  transitions_explored = st.transitions;
  maximum_depth_reached = st.maximum_depth;
  truncated = false;
}

unfoldable pub examine :
    (Successor → Successor → Bool)
    → ModelScenario
    → SearchState
    → ModelState
    → ℕ
    → Option Violation
    → Checked Turn
unfolding expand
examine before sc st s d (some v) = ok (finished (refuted sc st s v))
examine before sc st s d none =
    if leb sc.max_depth d
    then ok (going st)
    else do xs ← successors before s sc; ok (going (expand sc s d xs st))

unfoldable pub visit :
    (Successor → Successor → Bool)
    → ModelScenario
    → SearchState
    → List (ModelState × ℕ)
    → Checked Turn
unfolding examine
visit before sc st [] = ok (finished (exhausted st))
visit before sc st ((s, d) ∷ rest) = do
  v ← violation s
  examine before sc (record st { queue = rest; maximum_depth = max st.maximum_depth d }) s d v

-- `while queue:`; `none` means that the fuel ran out.
unfoldable pub search_loop :
    (Successor → Successor → Bool) → ModelScenario → ℕ → SearchState → Option (Checked SearchResult)
unfolding visit
search_loop before sc zero st = none
search_loop before sc (suc fuel) st = elim (visit before sc st st.queue) [
  | ok (finished r) ↦ some (ok r)
  | ok (going next) ↦ search_loop before sc fuel next
  | raise e ↦ some (raise e)
]

abbrev pub started : ModelState → SearchState
started s = record {
  queue = (s, 0) ∷ [];
  seen = s ∷ [];
  parents = [];
  transitions = 0;
  maximum_depth = 0;
  truncated = false;
}

-- One round for each state that is ever queued, and one for the end.
unfoldable pub explore_scenario :
    (Successor → Successor → Bool) → ModelScenario → Option (Checked SearchResult)
unfolding search_loop
explore_scenario before sc = elim (initial_state sc) [
  | ok s ↦ search_loop before sc (sc.max_states + 2) (started s)
  | raise e ↦ some (raise e)
]
