-- ===== src/AttemptModel/Explored.antt =====
-- What the loop of `explore_scenario` keeps: its queue holds reachable states with a recorded path.
use locus_v.Prelude.{
  ℕ, ◌+◌, ◌-◌, ◌≤◌, ◌≡◌, refl, ap, inl, inr, Bool, true, false, List, [], ◌∷◌, ◌++◌, arith,
  Bool-cases, leb,
}
use locus_v.Prelude.Lists.{length, All, In, All-append, length-append}
use locus_v.Prelude.Counts.{All-mono}
use locus_v.Prelude.Sets.{contains}
use locus_v.Prelude.Results.{ok}
use locus_v.AttemptModel.State.{ModelState, ModelScenario, state_eq}
use locus_v.AttemptModel.Successors.{Action, Successor, successors}
use locus_v.AttemptModel.Search.{Parent, SearchState, expand}
use locus_v.AttemptModel.Reach.{Reach, next}
use locus_v.AttemptModel.Trail.{IsReached, IsRecorded}

-- States still to be queued, and states queued: this falls with every round.
abbrev pub measure : ModelScenario → SearchState → ℕ
measure sc st = length st.queue + (sc.max_states - length st.seen)

pub expand-measure :
    (sc : ModelScenario) (s : ModelState) (d : ℕ) (xs : List Successor) (st : SearchState)
    → measure sc (expand sc s d xs st) ≤ measure sc st
unfolding expand
expand-measure sc s d [] st = omega arith
expand-measure sc s d ((a, t) ∷ xs) st = elim (Bool-cases (contains st.seen t)) [
  | inl old ↦ rw old (expand-measure sc s d xs (record st { transitions = st.transitions + 1 }))
  | inr new ↦ elim (Bool-cases (leb sc.max_states (length st.seen))) [
    | inl full ↦ rw (new, full) (omega arith)
    | inr room ↦
        rw (new, room)
          (ground (
            arith,
            room,
            length-append st.queue ((t, d + 1) ∷ []),
            expand-measure sc s d xs (record st {
              transitions = st.transitions + 1;
              seen = t ∷ st.seen;
              parents = (record { child = t; previous = s; action = a }) ∷ st.parents;
              queue = st.queue ++ (t, d + 1) ∷ [];
            }),
          ))
  ]
]

module _ (before : Successor → Successor → Bool) (sc : ModelScenario) (origin : ModelState) where
  -- A queued state is reachable and has a recorded path.
  abbrev pub IsQueued : List Parent → ModelState × ℕ → Type 0
  IsQueued ps e = Reach before sc e.0 × IsReached before sc origin ps e.0

  pub record IsSearch (st : SearchState) : Type 0 where
    pub queued : All (IsQueued st.parents) st.queue
    pub recorded : IsRecorded before sc origin st.parents
    pub marked :
        (c : ModelState) → IsReached before sc origin st.parents c → contains st.seen c ≡ true

  add-IsSearch :
      (s t : ModelState) (a : Action) (listed : List Successor) (d n : ℕ) (st : SearchState)
      → IsSearch st
      → Reach before sc s
      → IsReached before sc origin st.parents s
      → successors before s sc ≡ ok listed
      → In (a, t) listed
      → contains st.seen t ≡ false
      → IsSearch (record st {
        transitions = n;
        seen = t ∷ st.seen;
        parents = (record { child = t; previous = s; action = a }) ∷ st.parents;
        queue = st.queue ++ (t, d) ∷ [];
      })
  unfolding contains
  add-IsSearch s t a listed d n st k r i e m new = record {
    queued =
        All-append _ st.queue _
          (All-mono (IsQueued st.parents) _ st.queue (λ x q. (q.0, inr q.1)) k.queued)
          ((next a r e m, inl refl), tt);
    recorded =
        (λ c h q. cc (new, k.marked c h, ap (contains st.seen) q), i, (listed, e, m), k.recorded);
    marked = λ c h. elim h [
      | inl q ↦ ground (arith, state_eq.same_iff t c, q)
      | inr h ↦ ground (arith, k.marked c h)
    ];
  }

  pub expand-IsSearch :
      (s : ModelState) (listed : List Successor) (d : ℕ) (xs : List Successor) (st : SearchState)
      → IsSearch st
      → Reach before sc s
      → IsReached before sc origin st.parents s
      → successors before s sc ≡ ok listed
      → All (λ x. In x listed) xs
      → IsSearch (expand sc s d xs st)
  unfolding expand
  expand-IsSearch s listed d [] st k r i e h = k
  expand-IsSearch s listed d ((a, t) ∷ xs) st k r i e h = elim (Bool-cases (contains st.seen t)) [
    | inl old ↦ rw old (
        expand-IsSearch s listed d xs (record st { transitions = st.transitions + 1 })
          (record { queued = k.queued; recorded = k.recorded; marked = k.marked }) r i e h.1)
    | inr new ↦ elim (Bool-cases (leb sc.max_states (length st.seen))) [
      | inl full ↦ rw (new, full) (record { queued = tt; recorded = k.recorded; marked = k.marked })
      | inr room ↦
          rw (new, room)
            (expand-IsSearch s listed d xs _
              (add-IsSearch s t a listed (d + 1) (st.transitions + 1) st k r i e h.0 new) r (inr i)
              e h.1)
    ]
  ]
