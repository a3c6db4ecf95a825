-- ===== src/AttemptModel/Trail.antt =====
-- `_trace` rebuilds a path of successors from the initial state.
use mathlib.Core.List.{append_assoc}
use locus_v.Prelude.{
  ℕ, zero, suc, ◌<◌, ◌≡◌, ◌≢◌, refl, sym, subst, ap, ◌∙◌, ◌⊎◌, inl, inr, Bool, none, some, List, [],
  ◌∷◌, ◌++◌, arith,
}
use locus_v.Prelude.Lists.{length, In}
use locus_v.Prelude.Results.{ok}
use locus_v.AttemptModel.State.{ModelState, ModelScenario, state_eq}
use locus_v.AttemptModel.Successors.{Action, Successor, successors}
use locus_v.AttemptModel.Search.{Parent, parent_of, trace_from}

trace_from-none :
    (fuel : ℕ) (ps : List Parent) (c : ModelState) (acts : List Action)
    → parent_of ps c ≡ none
    → trace_from (suc fuel) ps c acts ≡ some acts
unfolding trace_from
trace_from-none fuel ps c acts h = ground arith

trace_from-some :
    (fuel : ℕ) (ps : List Parent) (c : ModelState) (acts : List Action) (p : Parent)
    → parent_of ps c ≡ some p
    → trace_from (suc fuel) ps c acts ≡ trace_from fuel ps p.previous (p.action ∷ acts)
unfolding trace_from
trace_from-some fuel ps c acts p h = rw (h, trace_from)

not_first :
    (p : Parent) (ps : List Parent) (d : ModelState)
    → p.child ≢ d
    → parent_of (p ∷ ps) d ≡ parent_of ps d
not_first p ps d h = ground (arith, state_eq.same_iff p.child d)

first_parent : (p : Parent) (ps : List Parent) → parent_of (p ∷ ps) p.child ≡ some p
first_parent p ps = ground (arith, state_eq.same_iff p.child p.child)

module _ (before : Successor → Successor → Bool) (sc : ModelScenario) (origin : ModelState) where
  -- The actions lead from the origin to the state, each a successor of the one before.
  pub data Trail : List Action → ModelState → Type 0 where
    here : Trail [] origin
    then_to :
        {actions : List Action} {s t : ModelState} {xs : List Successor} {longer : List Action}
        (a : Action)
        → Trail actions s
        → successors before s sc ≡ ok xs
        → In (a, t) xs
        → longer ≡ actions ++ a ∷ []
        → Trail longer t

  -- The origin, or a state with an entry.
  abbrev pub IsReached : List Parent → ModelState → Type 0
  IsReached [] c = c ≡ origin
  IsReached (p ∷ ps) c = (c ≡ p.child) ⊎ IsReached ps c

  -- Each entry is of a new state, a successor of one that was there.
  abbrev pub IsRecorded : List Parent → Type 0
  IsRecorded [] = Unit
  IsRecorded (p ∷ ps) =
      ((c : ModelState) → IsReached ps c → p.child ≢ c)
      × IsReached ps p.previous
      × ((xs : List Successor) × (successors before p.previous sc ≡ ok xs)
          × In (p.action, p.child) xs)
      × IsRecorded ps

  -- The whole dictionary answers as the older part does.
  abbrev Agrees : List Parent → List Parent → Type 0
  Agrees whole ps = (c : ModelState) → IsReached ps c → parent_of whole c ≡ parent_of ps c

  pub origin-IsReached : (ps : List Parent) → IsReached ps origin
  origin-IsReached [] = refl
  origin-IsReached (p ∷ ps) = inr (origin-IsReached ps)

  pub trace_from-Trail :
      (whole ps : List Parent) (fuel : ℕ) (c : ModelState)
      → IsRecorded ps
      → Agrees whole ps
      → IsReached ps c
      → length ps < fuel
      → (tr : List Action) × Trail tr c
        × ((acts : List Action) → trace_from fuel whole c acts ≡ some (tr ++ acts))
  trace_from-Trail whole [] zero c r g h l = absurd (omega arith)
  trace_from-Trail whole [] (suc fuel) c r g h l =
      ([], subst (Trail []) (sym h) here, λ acts. trace_from-none fuel whole c acts (g c h))
  trace_from-Trail whole (p ∷ ps) fuel c r g (inr h) l =
      trace_from-Trail whole ps fuel c r.3 (λ d k. g d (inr k) ∙ not_first p ps d (r.0 d k)) h
        (omega arith)
  trace_from-Trail whole (p ∷ ps) zero c r g (inl e) l = absurd (omega arith)
  trace_from-Trail whole (p ∷ ps) (suc fuel) c r g (inl e) l =
      let (tr, trail, run) =
        trace_from-Trail whole ps fuel p.previous r.3
          (λ d k. g d (inr k) ∙ not_first p ps d (r.0 d k)) r.1 (omega arith) in
      let (xs, listed, m) = r.2 in
      (
        tr ++ p.action ∷ [],
        subst (Trail (tr ++ p.action ∷ [])) (sym e) (then_to p.action trail listed m refl),
        λ acts.
            trace_from-some fuel whole c acts p
              (g c (inl e) ∙ (ap (parent_of (p ∷ ps)) e ∙ first_parent p ps))
            ∙ (run (p.action ∷ acts) ∙ ap some (sym (append_assoc tr (p.action ∷ []) acts))),
      )
