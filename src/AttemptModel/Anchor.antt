-- ===== src/AttemptModel/Anchor.antt =====
-- With a monotonic anchor the model is safe: however many snapshots are restored.
use locus_v.Prelude.{
  ◌≡◌, refl, sym, subst, ap, ◌∙◌, inl, inr, Bool, true, false, none, List, [], ◌∷◌, ◌++◌, arith,
  Bool-cases, leb,
}
use locus_v.Prelude.Lists.{length, All, In, drop_last, All-append, drop_last-append}
use locus_v.Prelude.Counts.{All-In, All-mono, All-sorted}
use locus_v.Prelude.Prefixes.{
  is_prefix, is_prefix-append, is_prefix_refl, is_prefix_trans, is_prefix_comparable,
}
use locus_v.Prelude.Results.{ok}
use locus_v.AttemptModel.State.{request_eq, Chain, ModelState, ModelScenario}
use locus_v.AttemptModel.Party.{is_anchored, chain_le}
use locus_v.AttemptModel.Successors.{Successor}
use locus_v.AttemptModel.Violation.{conflicts, certificates_violation, violation}
use locus_v.AttemptModel.Step.{Step}
use locus_v.AttemptModel.Sound.{IsSound, IsSoundCertificate, Sound, lock-IsSoundCertificate}
use locus_v.AttemptModel.Reach.{Reach, Reach-induction, initial_of, initial_state_lem}
use locus_v.AttemptModel.Bounds.{
  start-Sound, overruns_of_IsSane, closing_violation-none, violation-Sound,
}

-- Every certificate is on the chain of the anchor, and a retired epoch has none.
pub record IsAnchored (s : ModelState) : Type 0 where
  pub on_chain : All (λ c. is_prefix c s.anchor_chain ≡ true) s.certificates
  pub closed : s.retired_finalized ≡ true → s.anchor_retired ≡ true
  pub unused : s.retired_finalized ≡ true → s.certificates ≡ []
  pub no_certificate : s.post_retirement_certificate ≡ false
  pub no_evaluation : s.post_retirement_evaluation ≡ false

initial_of-IsAnchored : (sc : ModelScenario) → is_anchored sc ≡ true → IsAnchored (initial_of sc)
initial_of-IsAnchored sc h = elim (Bool-cases sc.retired_snapshot_seed) [
  | inl e ↦ rw e (record {
    on_chain = tt;
    closed = λ _. h;
    unused = λ _. refl;
    no_certificate = refl;
    no_evaluation = refl;
  })
  | inr e ↦ rw e (record {
    on_chain = tt;
    closed = λ p. absurd (cc);
    unused = λ _. refl;
    no_certificate = refl;
    no_evaluation = refl;
  })
]

-- A certificate that extends the old anchor has every older one as a prefix.
extends_anchor :
    (c anchor : Chain) → IsSoundCertificate c → drop_last c ≡ anchor → is_prefix anchor c ≡ true
extends_anchor c anchor h e =
    subst (λ d. is_prefix anchor d ≡ true) (sym h.extends)
      (subst (λ a. is_prefix a (h.front ++ h.request ∷ []) ≡ true)
        (sym (drop_last-append h.front h.request) ∙ (ap drop_last (sym h.extends) ∙ e))
        (is_prefix-append h.front (h.request ∷ [])))

not-In-nil : {c : Chain} → ¬ In c []
not-In-nil m = elim m [ ]

-- Every step of an anchored scenario keeps the certificates on the chain of the anchor.
Step-IsAnchored :
    {sc : ModelScenario} (s t : ModelState)
    → is_anchored sc ≡ true
    → Sound s
    → IsAnchored s
    → Step sc s t
    → IsAnchored t
Step-IsAnchored s t h v k (Step.moves i p q e m r) = rw r (record {
  on_chain = k.on_chain;
  closed = k.closed;
  unused = k.unused;
  no_certificate = k.no_certificate;
  no_evaluation = k.no_evaluation;
})
Step-IsAnchored s t h v k (Step.rolls_back i p n e b changed r) = rw r (record {
  on_chain = k.on_chain;
  closed = k.closed;
  unused = k.unused;
  no_certificate = k.no_certificate;
  no_evaluation = k.no_evaluation;
})
Step-IsAnchored s t h v k (Step.certifies c p m l new n a r) =
    rw (r, h)
      (record {
        on_chain =
            All-sorted (λ d. is_prefix d c ≡ true) chain_le _
              (All-append _ s.certificates _
                (All-mono _ _ s.certificates
                  (λ d q. is_prefix_trans d s.anchor_chain c q (
                    extends_anchor c s.anchor_chain
                      (lock-IsSoundCertificate p c (All-In IsSound s.parties v.parties m) l)
                      (a h).1))
                  k.on_chain)
                (is_prefix_refl c, tt));
        closed = k.closed;
        unused = λ q. absurd (ground (arith, k.closed q, (a h).0));
        no_certificate = ground (arith, k.closed, (a h).0, k.no_certificate);
        no_evaluation = k.no_evaluation;
      })
Step-IsAnchored s t h v k (Step.evaluates c x m l new n r) = rw r (record {
  on_chain = k.on_chain;
  closed = k.closed;
  unused = k.unused;
  no_certificate = k.no_certificate;
  no_evaluation = elim (Bool-cases s.retired_finalized) [
    | inl q ↦ absurd (not-In-nil (subst (In c) (k.unused q) m))
    | inr q ↦ ground (arith, k.no_evaluation)
  ];
})

-- Certificates on one chain do not conflict.
conflicts-none :
    (anchor left : Chain) (rest : List Chain)
    → is_prefix left anchor ≡ true
    → All (λ c. is_prefix c anchor ≡ true) rest
    → conflicts left rest ≡ false
conflicts-none anchor left [] h k = refl
conflicts-none anchor left (c ∷ rest) h k = elim (Bool-cases (leb (length left) (length c))) [
  | inl e ↦ ground (
    arith,
    is_prefix_comparable left c anchor h k.0 (ground arith),
    conflicts-none anchor left rest h k.1,
  )
  | inr e ↦ ground (
    arith,
    is_prefix_comparable c left anchor k.0 h (ground arith),
    conflicts-none anchor left rest h k.1,
  )
]

certificates_violation-none :
    (anchor : Chain) (cs : List Chain)
    → All IsSoundCertificate cs
    → All (λ c. is_prefix c anchor ≡ true) cs
    → certificates_violation cs ≡ none
certificates_violation-none anchor [] h k = refl
certificates_violation-none anchor (c ∷ cs) h k = ground (
  arith,
  overruns_of_IsSane c h.0.sane,
  conflicts-none anchor c cs k.0 k.1,
  certificates_violation-none anchor cs h.1 k.1,
)

-- In a scenario with a monotonic anchor, whatever its bounds on rollbacks, depth and states and
-- however `_successors` sorts, no reachable state has a violation, and `_violation` never raises.
pub anchor_safety :
    (before : Successor → Successor → Bool) (sc : ModelScenario) (s : ModelState)
    → is_anchored sc ≡ true
    → Reach before sc s
    → violation s ≡ ok none
anchor_safety before sc s h r =
    let (v, k) =
      Reach-induction before IsAnchored
        (λ s e. (
          start-Sound sc s e,
          subst IsAnchored (ground (arith, e, initial_state_lem sc)) (initial_of-IsAnchored sc h),
        ))
        (λ s t v k st. Step-IsAnchored s t h v k st) r in
    violation-Sound s v
    ∙ ap ok (
        ground (
          arith,
          k.no_certificate,
          k.no_evaluation,
          certificates_violation-none s.anchor_chain s.certificates v.certificates k.on_chain,
          closing_violation-none s v,
        ))
