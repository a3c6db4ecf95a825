-- ===== src/AttemptModel/Bounds.antt =====
-- What `_violation` can report at all: budgets, repeats, uncertified evaluations and stray anchors
-- never occur, in any scenario and at any depth.
use locus_v.Prelude.{
  ◌≤◌, ◌≡◌, refl, sym, subst, ◌⊎◌, inl, inr, Bool, true, false, Option, none, some, List, [], ◌∷◌,
  arith, Bool-cases,
}
use locus_v.Prelude.Eq.{◌==◌, list_eq, list_beq_iff}
use locus_v.Prelude.Lists.{length, All}
use locus_v.Prelude.Counts.{All-mono}
use locus_v.Prelude.Sets.{contains, distinct, length-to_set, contains-append, is_subset-All}
use locus_v.Prelude.Results.{ok, ◌>>=◌, Returns}
use locus_v.AttemptModel.State.{
  Request, request_eq, Chain, genesis, ModelState, ModelScenario, Violation, budget,
  authorization_after_final_retirement, evaluation_after_final_retirement,
  conflicting_authorization_certificates,
}
use locus_v.AttemptModel.Party.{initial_state}
use locus_v.AttemptModel.Successors.{Successor}
use locus_v.AttemptModel.Violation.{
  overruns, certificates_violation, certified_requests, closing_violation, state_violation,
  violation,
}
use locus_v.AttemptModel.Valid.{Fits, unlocked, validate_all-Fits}
use locus_v.AttemptModel.Sound.{IsSane, IsSane-nil, IsSound, IsSoundCertificate, IsCertified, Sound}
use locus_v.AttemptModel.Reach.{Reach, Reach-induction, initial_of, initial_state_lem}

genesis-IsSound :
    (ready active : Bool) → IsSound (record genesis { ready = ready; active = active })
genesis-IsSound ready active = record {
  fits = unlocked refl refl;
  chain = IsSane-nil;
  lock = λ c e. absurd (cc);
}

pub initial_of-Sound : (sc : ModelScenario) → Sound (initial_of sc)
unfolding distinct
initial_of-Sound sc = elim (Bool-cases sc.retired_snapshot_seed) [
  | inl e ↦ rw e (record {
    parties = (
      genesis-IsSound false true,
      (genesis-IsSound false true, (genesis-IsSound true false, tt)),
    );
    certificates = tt;
    evaluated = tt;
    once = refl;
    anchor = IsSane-nil;
    anchor_certified = inl refl;
    retired = λ h. refl;
  })
  | inr e ↦ rw e (record {
    parties =
        (genesis-IsSound true true, (genesis-IsSound true true, (genesis-IsSound true true, tt)));
    certificates = tt;
    evaluated = tt;
    once = refl;
    anchor = IsSane-nil;
    anchor_certified = inl refl;
    retired = λ h. absurd (cc);
  })
]

pub start-Sound : (sc : ModelScenario) (s : ModelState) → initial_state sc ≡ ok s → Sound s
start-Sound sc s e = subst Sound (ground (arith, e, initial_state_lem sc)) (initial_of-Sound sc)

pub Reach-Sound :
    (before : Successor → Successor → Bool) (sc : ModelScenario) {s : ModelState}
    → Reach before sc s
    → Sound s
Reach-Sound before sc r =
    (Reach-induction before (λ _. Unit {0}) (λ s e. (start-Sound sc s e, tt)) (λ s t v h st. tt)
      r).0

pub overruns_of_IsSane : (c : Chain) → IsSane c → overruns c ≡ false
overruns_of_IsSane c h = ground (arith, h.within, length-to_set c h.once)

-- A sequence of distinct requests is no longer than `REQUESTS`.
length-le_of_distinct : (rs : List Request) → distinct rs ≡ true → length rs ≤ budget
unfolding distinct contains
length-le_of_distinct [] h = omega arith
length-le_of_distinct (a ∷ []) h = omega arith
length-le_of_distinct (a ∷ b ∷ []) h = omega arith
length-le_of_distinct (a ∷ b ∷ c ∷ rs) h = absurd (ground arith)

certified_requests-contains :
    (cs : List Chain) (r : Request) → IsCertified cs r → contains (certified_requests cs) r ≡ true
unfolding contains
certified_requests-contains [] r h = absurd (cc (h.1))
certified_requests-contains (c ∷ cs) r (d, m, k) = elim (Bool-cases (c == d)) [
  | inl e ↦
      rw contains-append
        (ground (arith, k, subst (λ x. contains x r ≡ true) (sym ((list_beq_iff c d).0 e)) k))
  | inr e ↦
      rw contains-append (ground (arith, certified_requests-contains cs r (d, ground arith, k)))
]

-- After the loops a sound state passes every test.
pub closing_violation-none : (s : ModelState) → Sound s → closing_violation s ≡ none
closing_violation-none s v = ground (
  arith,
  length-le_of_distinct s.evaluated v.once,
  is_subset-All s.evaluated (certified_requests s.certificates)
      (All-mono _ _ s.evaluated (certified_requests-contains s.certificates) v.evaluated),
  v.retired,
  v.anchor_certified,
  list_beq_iff s.anchor_chain [],
)

certificates_violation-conflict :
    (cs : List Chain)
    → All IsSoundCertificate cs
    → (certificates_violation cs ≡ none)
      ⊎ (certificates_violation cs ≡ some conflicting_authorization_certificates)
certificates_violation-conflict [] h = inl refl
certificates_violation-conflict (c ∷ cs) h =
    ground (arith, overruns_of_IsSane c h.0.sane, certificates_violation-conflict cs h.1)

-- The reports that remain.
abbrev pub IsForkOrLate : Option Violation → Type 0
IsForkOrLate v =
    (v ≡ none)
    ⊎ (v ≡ some authorization_after_final_retirement)
    ⊎ (v ≡ some evaluation_after_final_retirement)
    ⊎ (v ≡ some conflicting_authorization_certificates)

state_violation-IsForkOrLate : (s : ModelState) → Sound s → IsForkOrLate (state_violation s)
state_violation-IsForkOrLate s v = ground (
  arith,
  closing_violation-none s v,
  certificates_violation-conflict s.certificates v.certificates,
)

-- `_violation` of a sound state returns, and reports the fields of the state.
pub violation-Sound : (s : ModelState) → Sound s → violation s ≡ ok (state_violation s)
unfolding violation
violation-Sound s v =
    rw (
      validate_all-Fits s.parties (All-mono IsSound Fits s.parties (λ p h. h.fits) v.parties),
      ◌>>=◌,
    )

-- In every reachable state of every scenario `_violation` returns, and what it reports is nothing,
-- an authorization or an evaluation after retirement, or conflicting certificates: no certificate
-- overruns the budget or repeats a request, no more requests are evaluated than the budget, none
-- without a certificate, and the anchor is certified.
pub reachable_reports :
    (before : Successor → Successor → Bool) (sc : ModelScenario) (s : ModelState)
    → Reach before sc s
    → Returns IsForkOrLate (violation s)
reachable_reports before sc s r =
    let v = Reach-Sound before sc r in rw (violation-Sound s v) (state_violation-IsForkOrLate s v)
