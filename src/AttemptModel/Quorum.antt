-- ===== src/AttemptModel/Quorum.antt =====
-- Without rollbacks the quorums alone are safe.
use locus_v.Prelude.{
  ◌-◌, ◌≡◌, refl, subst, ap, ◌∙◌, inl, inr, Bool, true, false, ◌||◌, none, List, [], ◌∷◌, arith,
  Bool-cases, leb,
}
use locus_v.Prelude.Eq.{list_eq, option_eq, nat_eq}
use locus_v.Prelude.Lists.{length, All}
use locus_v.Prelude.Counts.{All-of_In}
use locus_v.Prelude.Sets.{contains, In-contains}
use locus_v.Prelude.Prefixes.{is_prefix}
use locus_v.Prelude.Results.{ok}
use locus_v.AttemptModel.State.{request_eq, Chain, ModelState, ModelScenario}
use locus_v.AttemptModel.Party.{is_anchored}
use locus_v.AttemptModel.Successors.{Successor}
use locus_v.AttemptModel.Violation.{conflicts, certificates_violation, violation}
use locus_v.AttemptModel.Step.{Step}
use locus_v.AttemptModel.Sound.{IsSoundCertificate, Sound}
use locus_v.AttemptModel.Reach.{Reach, Reach-induction, initial_of, initial_state_lem}
use locus_v.AttemptModel.Bounds.{
  start-Sound, overruns_of_IsSane, closing_violation-none, violation-Sound,
}
use locus_v.AttemptModel.Forks.{IsForkFree, slot_prefix}
use locus_v.AttemptModel.ForkFree.{moves-IsForkFree, certifies-IsForkFree}

initial_of-IsForkFree :
    (sc : ModelScenario) → sc.retired_snapshot_seed ≡ false → IsForkFree (initial_of sc)
unfolding contains
initial_of-IsForkFree sc h = rw h (record {
  three = refl;
  known = (inl refl, (inl refl, (inl refl, tt)));
  fronts = λ c m. absurd (cc);
  backed = λ c m. absurd (cc);
  unique = λ c d m l e. absurd (cc);
  unrolled = refl;
  unretired = refl;
  no_certificate = refl;
  no_evaluation = refl;
})

Step-IsForkFree :
    {sc : ModelScenario} (s t : ModelState)
    → is_anchored sc ≡ false
    → sc.rollback_limit ≡ 0
    → Sound s
    → IsForkFree s
    → Step sc s t
    → IsForkFree t
Step-IsForkFree s t h z v k (Step.moves i p q e m r) = rw r (moves-IsForkFree s i p q h v k e m)
Step-IsForkFree s t h z v k (Step.rolls_back i p n e b changed r) = absurd (omega arith)
Step-IsForkFree {sc} s t h z v k (Step.certifies c p m l new n a r) =
    rw r (certifies-IsForkFree s v k c sc p h m l new (omega arith))
Step-IsForkFree s t h z v k (Step.evaluates c x m l new n r) = rw r (record {
  three = k.three;
  known = k.known;
  fronts = k.fronts;
  backed = k.backed;
  unique = k.unique;
  unrolled = k.unrolled;
  unretired = k.unretired;
  no_certificate = k.no_certificate;
  no_evaluation = ground (arith, k.no_evaluation, k.unretired);
})

module _ (s : ModelState) (v : Sound s) (k : IsForkFree s) where
  comparable :
      (c d : Chain)
      → contains s.certificates c ≡ true
      → contains s.certificates d ≡ true
      → (is_prefix c d || is_prefix d c) ≡ true
  comparable c d m l = elim (Bool-cases (leb (length c) (length d))) [
    | inl e ↦ ground (arith, slot_prefix s v k (length d - length c) c d m l (ground arith))
    | inr e ↦ ground (arith, slot_prefix s v k (length c - length d) d c l m (ground arith))
  ]

  conflicts-none :
      (c : Chain) (cs : List Chain)
      → contains s.certificates c ≡ true
      → All (λ d. contains s.certificates d ≡ true) cs
      → conflicts c cs ≡ false
  conflicts-none c [] m h = refl
  conflicts-none c (d ∷ cs) m h = ground (arith, comparable c d m h.0, conflicts-none c cs m h.1)

  certificates_violation-none :
      (cs : List Chain)
      → All IsSoundCertificate cs
      → All (λ d. contains s.certificates d ≡ true) cs
      → certificates_violation cs ≡ none
  certificates_violation-none [] u h = refl
  certificates_violation-none (c ∷ cs) u h = ground (
    arith,
    overruns_of_IsSane c u.0.sane,
    conflicts-none c cs h.0 h.1,
    certificates_violation-none cs u.1 h.1,
  )

-- In a scenario with no anchor and no rollbacks that starts from the active genesis, whatever its
-- bounds on depth and states and however `_successors` sorts, no reachable state has a violation.
pub quorum_safety :
    (before : Successor → Successor → Bool) (sc : ModelScenario) (s : ModelState)
    → is_anchored sc ≡ false
    → sc.rollback_limit ≡ 0
    → sc.retired_snapshot_seed ≡ false
    → Reach before sc s
    → violation s ≡ ok none
quorum_safety before sc s h z a r =
    let (v, k) =
      Reach-induction before IsForkFree
        (λ s e. (
          start-Sound sc s e,
          subst IsForkFree (ground (arith, e, initial_state_lem sc)) (initial_of-IsForkFree sc a),
        ))
        (λ s t v k st. Step-IsForkFree s t h z v k st) r in
    violation-Sound s v
    ∙ ap ok (
        ground (
          arith,
          k.no_certificate,
          k.no_evaluation,
          certificates_violation-none s v k s.certificates v.certificates (
              All-of_In (λ d. contains s.certificates d ≡ true) s.certificates
                (λ d m. In-contains s.certificates d m)),
          closing_violation-none s v,
        ))
