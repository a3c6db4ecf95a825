-- ===== src/AttemptModel/Reach.antt =====
-- The states that the search can meet: those that `_successors` leads to from the initial state.
use locus_v.Prelude.{
  ◌≡◌, sym, subst, Bool, true, false, inl, inr, some, List, [], ◌∷◌, if◌then◌else◌, Bool-cases,
}
use locus_v.Prelude.Lists.{All, In, last?, last?-append}
use locus_v.Prelude.Counts.{All-In, All-mono}
use locus_v.Prelude.Results.{ok, Returns, Returns-ok}
use locus_v.AttemptModel.State.{genesis, ModelState, ModelScenario, request_eq}
use locus_v.AttemptModel.Party.{fresh_state, is_anchored, initial_state}
use locus_v.AttemptModel.Successors.{Action, Successor, successors}
use locus_v.AttemptModel.Step.{Step}
use locus_v.AttemptModel.Valid.{Fits}
use locus_v.AttemptModel.Refines.{successors-Step}
use locus_v.AttemptModel.Sound.{Sound, IsSound, IsSoundCertificate, Step-Sound}

-- What `_initial_state` returns.
abbrev pub seeded : ModelScenario → ModelState
seeded sc =
    record (fresh_state (
      record genesis { ready = false }
      ∷ record genesis { ready = false }
      ∷ record genesis { active = false }
      ∷ [])) { rollback_count = 2; retired_finalized = true; anchor_retired = is_anchored sc }

abbrev pub initial_of : ModelScenario → ModelState
initial_of sc =
    if sc.retired_snapshot_seed then seeded sc else fresh_state (genesis ∷ genesis ∷ genesis ∷ [])

pub initial_state_lem : (sc : ModelScenario) → initial_state sc ≡ ok (initial_of sc)
unfolding initial_state
initial_state_lem sc = elim (Bool-cases sc.retired_snapshot_seed) [ inl e ↦ rw e | inr e ↦ rw e ]

-- `before` is the order in which `_successors` sorts.
pub data Reach (before : Successor → Successor → Bool) (sc : ModelScenario)
    : ModelState → Type 0 where
  start : {s : ModelState} → initial_state sc ≡ ok s → Reach before sc s
  next :
      {s t : ModelState} {xs : List Successor} (a : Action)
      → Reach before sc s
      → successors before s sc ≡ ok xs
      → In (a, t) xs
      → Reach before sc t

module _ (before : Successor → Successor → Bool) where
  -- From a sound state `_successors` returns steps alone.
  pub Sound-Returns :
      (sc : ModelScenario) {s : ModelState}
      → Sound s
      → Returns (All (λ x. Step sc s x.1)) (successors before s sc)
  Sound-Returns sc {s} v =
      successors-Step s sc (All-mono IsSound Fits s.parties (λ p h. h.fits) v.parties) before (
        All-mono IsSoundCertificate _ s.certificates
          (λ c h. (
            h.request,
            subst (λ d. last? d ≡ some h.request) (sym h.extends) (last?-append h.front h.request),
          ))
          v.certificates)

  -- An invariant of the steps holds of every reachable state.
  pub Reach-induction :
      {sc : ModelScenario} (P : ModelState → Type 0)
      → ((s : ModelState) → initial_state sc ≡ ok s → Sound s × P s)
      → ((s t : ModelState) → Sound s → P s → Step sc s t → P t)
      → {s : ModelState} → Reach before sc s
      → Sound s × P s
  Reach-induction P init keep (start e) = init _ e
  Reach-induction {sc} P init keep (next {s} {t} {xs} a r e m) =
      let (v, h) = Reach-induction P init keep r in
      let steps : All (λ x. Step sc s x.1) xs =
        Returns-ok (All (λ x. Step sc s x.1)) _ (Sound-Returns sc v) xs e in
      let st : Step sc s t = All-In (λ x. Step sc s x.1) xs steps m in
      (Step-Sound v st, keep s t v h st)
