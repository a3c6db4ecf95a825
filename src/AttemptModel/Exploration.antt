-- ===== src/AttemptModel/Exploration.antt =====
-- `explore_scenario` ends, never raises, and reports a violation only with a state and a path to
-- it.
use mathlib.Core.List.{append-nil}
use locus_v.Prelude.{
  ℕ, zero, suc, ◌+◌, ◌<◌, ◌≡◌, ◌≢◌, refl, sym, subst, ap, ◌⊎◌, inl, inr, Bool, Option, none, some,
  List, [], ◌∷◌, ◌++◌, arith, Bool-cases, leb, max,
}
use locus_v.Prelude.Lists.{length, All, In}
use locus_v.Prelude.Counts.{All-of_In}
use locus_v.Prelude.Sets.{contains}
use locus_v.Prelude.Results.{ok, Returns, Returns-mono, Returns-value}
use locus_v.AttemptModel.State.{ModelState, ModelScenario, Violation, state_eq}
use locus_v.AttemptModel.Successors.{Action, Successor, successors}
use locus_v.AttemptModel.Violation.{violation, state_violation}
use locus_v.AttemptModel.Search.{
  counterexample, SearchResult, SearchState, seed_trace, Turn, finished, going, examine, visit,
  search_loop, started, explore_scenario,
}
use locus_v.AttemptModel.Reach.{Reach, start, initial_of, initial_state_lem, Sound-Returns}
use locus_v.AttemptModel.Bounds.{Reach-Sound, violation-Sound}
use locus_v.AttemptModel.Trail.{Trail, IsReached, trace_from-Trail}
use locus_v.AttemptModel.Explored.{measure, expand-measure, IsQueued, IsSearch, expand-IsSearch}

module _ (before : Successor → Successor → Bool) (sc : ModelScenario) where
  -- A reported violation: of a reachable state, at the end of the reported path.
  pub record IsRefuted (r : SearchResult) : Type 0 where
    pub state : ModelState
    pub found : Violation
    pub path : List Action
    pub outcome : r.outcome ≡ counterexample
    pub reported : r.violation ≡ some found
    pub reached : Reach before sc state
    pub violates : violation state ≡ ok (some found)
    pub trail : Trail before sc (initial_of sc) path state
    pub traced : r.trace ≡ seed_trace sc ++ path

  pub record IsUnrefuted (r : SearchResult) : Type 0 where
    pub outcome : r.outcome ≢ counterexample
    pub silent : r.violation ≡ none
    pub untraced : r.trace ≡ []

  abbrev pub Explains : SearchResult → Type 0
  Explains r = IsRefuted r ⊎ IsUnrefuted r

  abbrev origin : ModelState
  origin = initial_of sc

  abbrev Goes : SearchState → Turn → Type 0
  Goes st (finished r) = Explains r
  Goes st (going t) = IsSearch before sc origin t × (measure sc t < measure sc st)

  examine-Goes :
      (st : SearchState) (s : ModelState) (d : ℕ) (v : Option Violation) (old : SearchState)
      → IsSearch before sc origin st
      → Reach before sc s
      → IsReached before sc origin st.parents s
      → violation s ≡ ok v
      → measure sc st < measure sc old
      → Returns (Goes old) (examine before sc st s d v)
  unfolding examine
  examine-Goes st s d (some v) old k r i e l =
      let (tr, trail, run) =
        trace_from-Trail before sc origin st.parents st.parents (suc (length st.parents)) s
          k.recorded (λ c h. refl) i (omega arith) in
      inl (record {
        state = s;
        found = v;
        path = tr;
        outcome = refl;
        reported = refl;
        reached = r;
        violates = e;
        trail = trail;
        traced = rw (run [], append-nil);
      })
  examine-Goes st s d none old k r i e l = elim (Bool-cases (leb sc.max_depth d)) [
    | inl deep ↦ rw deep (k, l)
    | inr room ↦
        let (xs, listed, steps) =
          Returns-value (λ _. Unit {0}) (successors before s sc)
            (Returns-mono _ (λ _. Unit {0}) (successors before s sc) (λ _ _. tt)
              (Sound-Returns before sc (Reach-Sound before sc r))) in
        rw (room, listed)
          (
            expand-IsSearch before sc origin s xs d xs st k r i listed
                (All-of_In (λ x. In x xs) xs (λ x m. m)),
            omega (arith, expand-measure sc s d xs st),
          )
  ]

  visit-Goes :
      (st : SearchState) (queue : List (ModelState × ℕ))
      → st.queue ≡ queue
      → IsSearch before sc origin st
      → Returns (Goes st) (visit before sc st queue)
  unfolding visit
  visit-Goes st [] e k = inr (record { outcome = ground arith; silent = refl; untraced = refl })
  visit-Goes st ((s, d) ∷ rest) e k = rw (violation-Sound s (Reach-Sound before sc first.0)) (
      examine-Goes (record st { queue = rest; maximum_depth = max st.maximum_depth d }) s d
        (state_violation s) st
        (record { queued = queued.1; recorded = k.recorded; marked = k.marked }) first.0 first.1
        (violation-Sound s (Reach-Sound before sc first.0)) (omega (arith, ap (λ q. length q) e)))
    where
      queued : All (IsQueued before sc origin st.parents) ((s, d) ∷ rest)
      queued = subst (All (IsQueued before sc origin st.parents)) e k.queued

      first : IsQueued before sc origin st.parents (s, d)
      first = queued.0

  search_loop-Explains :
      (fuel : ℕ) (st : SearchState)
      → IsSearch before sc origin st
      → measure sc st < fuel
      → (r : SearchResult) × (search_loop before sc fuel st ≡ some (ok r)) × Explains r
  unfolding search_loop
  search_loop-Explains zero st k l = absurd (omega arith)
  search_loop-Explains (suc fuel) st k l =
      let (turn, e, g) =
        Returns-value (Goes st) (visit before sc st st.queue) (visit-Goes st st.queue refl k) in
      go turn e g (search_loop-Explains fuel)
    where
      go :
          (turn : Turn)
          → visit before sc st st.queue ≡ ok turn
          → Goes st turn
          → ((t : SearchState)
              → IsSearch before sc origin t
              → measure sc t < fuel
              → (r : SearchResult) × (search_loop before sc fuel t ≡ some (ok r)) × Explains r)
          → (r : SearchResult) × (search_loop before sc (suc fuel) st ≡ some (ok r)) × Explains r
      go (finished r) e g ih = (r, rw (e, search_loop), g)
      go (going t) e g ih =
          let (r, run, x) = ih t g.0 (omega arith) in (r, rw (e, search_loop) run, x)

  -- With the fuel that it is given the search ends and does not raise. What it reports is either a
  -- violation of a reachable state, with a trace that is the seed trace and then a path of
  -- successors from the initial state to that state, or no violation and no trace.
  pub explore_scenario-Explains :
      (r : SearchResult) × (explore_scenario before sc ≡ some (ok r)) × Explains r
  unfolding explore_scenario contains
  explore_scenario-Explains =
      let (r, run, x) =
        search_loop-Explains (sc.max_states + 2) (started origin)
          (record {
            queued = ((start (initial_state_lem sc), refl), tt);
            recorded = tt;
            marked = λ c h. ground (arith, state_eq.same_iff origin c, sym h);
          })
          (omega arith) in
      (r, rw (initial_state_lem sc, explore_scenario) run, x)
