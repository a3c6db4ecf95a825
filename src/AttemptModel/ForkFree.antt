-- ===== src/AttemptModel/ForkFree.antt =====
-- Moves and certifications keep the certificates free of forks: two quorums of four share one of
-- the three honest parties.
use locus_v.Prelude.{
  ℕ, ◌≤◌, ◌≡◌, ◌≢◌, sym, subst, ap, ◌∙◌, ◌⊎◌, inl, inr, true, false, ◌||◌, some, List, [], ◌∷◌,
  ◌++◌, arith, if◌then◌else◌,
}
use locus_v.Prelude.Eq.{list_eq, option_eq, nat_eq, list_beq_iff, option_beq_iff}
use locus_v.Prelude.Lists.{length, get_elem?, set, All, In, drop_last, count, length-set}
use locus_v.Prelude.Counts.{
  All-In, All-mono, All-sorted, All-set, All-get_elem?, All-of_In, sorted, count-sorted,
  count-le-set, count_mono, count_overlap, length-sorted,
}
use locus_v.Prelude.Sets.{contains, In-contains, contains-append, contains-sorted}
use locus_v.Prelude.Prefixes.{length-le_of_prefix}
use locus_v.AttemptModel.State.{request_eq, Chain, PartyState, ModelState, ModelScenario}
use locus_v.AttemptModel.Party.{is_anchored, chain_le, party_le}
use locus_v.AttemptModel.Successors.{has_prepared}
use locus_v.AttemptModel.Step.{Move, with_party}
use locus_v.AttemptModel.Sound.{IsSound, Sound, contains_kept}
use locus_v.AttemptModel.Forks.{
  backs, IsKnown, IsForkFree, IsSound-extends, backs_cases, Move-backs,
}

-- A move leaves the party on an empty chain or a certificate.
Move-IsKnown :
    {sc : ModelScenario} (s : ModelState) (p q : PartyState)
    → is_anchored sc ≡ false
    → All (λ r. IsKnown s.certificates r.chain) s.parties
    → IsKnown s.certificates p.chain
    → Move sc s p q
    → IsKnown s.certificates q.chain
Move-IsKnown s p q h all k (Move.vote r ready active unlock anchored new room e) = rw e k
Move-IsKnown s p q h all k (Move.prepare lock l ready ph n e) = rw e k
Move-IsKnown s p q h all k (Move.install d i ready f l e) =
    rw e (inr (In-contains s.certificates d i))
Move-IsKnown s p q h all k (Move.crash ready e) = rw e k
Move-IsKnown s p q h all k (Move.trust_snapshot down mode e) = rw e k
Move-IsKnown s p q h all k (Move.follow_anchor down mode live pre e) = absurd (cc)
Move-IsKnown s p q h all k (Move.follow_quorum peer i down free mode live pre n e) =
    rw e (All-In (λ r. IsKnown s.certificates r.chain) s.parties all i)

pub moves-IsForkFree :
    {sc : ModelScenario} (s : ModelState) (i : ℕ) (p q : PartyState)
    → is_anchored sc ≡ false
    → Sound s
    → IsForkFree s
    → get_elem? s.parties i ≡ some p
    → Move sc s p q
    → IsForkFree (with_party s i q)
moves-IsForkFree s i p q h v k e m = record {
  three = length-sorted party_le (set s.parties i q) ∙ (length-set s.parties i q ∙ k.three);
  known = All-sorted _ party_le _ (
      All-set (λ r. IsKnown s.certificates r.chain) s.parties i q
        (Move-IsKnown s p q h k.known
          (All-get_elem? (λ r. IsKnown s.certificates r.chain) s.parties i k.known e) m)
        k.known);
  fronts = k.fronts;
  backed = λ c l. omega (
    arith,
    k.backed c l,
    count-sorted (backs c) party_le (set s.parties i q),
    count-le-set (backs c) s.parties i p q e
        (Move-backs s v k p q h (All-get_elem? IsSound s.parties i v.parties e) c l m),
  );
  unique = k.unique;
  unrolled = k.unrolled;
  unretired = k.unretired;
  no_certificate = k.no_certificate;
  no_evaluation = k.no_evaluation;
}

module _ (s : ModelState) (v : Sound s) (k : IsForkFree s) (c : Chain) where
  abbrev pub more : List Chain
  more = sorted chain_le (s.certificates ++ c ∷ [])

  -- A prepared candidate opens a slot that no certificate has.
  fresh_slot :
      2 ≤ count (has_prepared c) s.parties
      → contains s.certificates c ≡ false
      → (d : Chain) → contains s.certificates d ≡ true
      → length c ≢ length d
  fresh_slot n new d m l =
      let (p, i, held, back) =
        count_overlap (has_prepared c) (backs d) s.parties
          (omega (arith, n, k.backed d m, k.three)) in
      let lock : p.lock ≡ some c = ground (arith, held, option_beq_iff p.lock (some c)) in
      elim (backs_cases d p back) [
        | inl same ↦
            let q : c ≡ d = ground (arith, lock, same) in
            cc (new, m, ap (contains s.certificates) q)
        | inr past ↦ absurd (
            omega (
              arith,
              (IsSound-extends p c (All-In IsSound s.parties v.parties i) lock).0,
              length-le_of_prefix d p.chain past,
            ))
      ]

  added : (d : Chain) → contains more d ≡ true → (contains s.certificates d ≡ true) ⊎ (c ≡ d)
  unfolding contains
  added d m = ground (
    arith,
    contains-sorted chain_le (s.certificates ++ c ∷ []) d,
    contains-append s.certificates (c ∷ []) d,
    list_beq_iff c d,
  )

  IsKnown-kept : (x : Chain) → IsKnown s.certificates x → IsKnown more x
  IsKnown-kept x (inl e) = inl e
  IsKnown-kept x (inr m) = inr (contains_kept s.certificates c x m)

  -- A certified candidate keeps the certificates free of forks.
  pub certifies-IsForkFree :
      (sc : ModelScenario) (p : PartyState)
      → is_anchored sc ≡ false
      → In p s.parties
      → p.lock ≡ some c
      → contains s.certificates c ≡ false
      → 2 ≤ count (has_prepared c) s.parties
      → IsForkFree (record s {
        certificates = more;
        post_retirement_certificate = s.post_retirement_certificate || s.retired_finalized;
        anchor_chain = if is_anchored sc then c else s.anchor_chain;
      })
  certifies-IsForkFree sc p h i lock new n = record {
    three = k.three;
    known = All-mono _ _ s.parties (λ r u. IsKnown-kept r.chain u) k.known;
    fronts = λ d m. elim (added d m) [
      | inl old ↦ IsKnown-kept (drop_last d) (k.fronts d old)
      | inr q ↦
          subst (λ x. IsKnown more (drop_last x)) q
            (subst (IsKnown more)
              (sym (IsSound-extends p c (All-In IsSound s.parties v.parties i) lock).1)
              (IsKnown-kept p.chain
                (All-In (λ r. IsKnown s.certificates r.chain) s.parties k.known i)))
    ];
    backed = λ d m. elim (added d m) [
      | inl old ↦ k.backed d old
      | inr q ↦ subst (λ x. 2 ≤ count (backs x) s.parties) q (omega (arith, n, prepared_back))
    ];
    unique = λ d x m l e. elim (added d m) [
      | inl old ↦ elim (added x l) [
        | inl old' ↦ k.unique d x old old' e
        | inr q ↦ absurd (fresh_slot n new d old (ap length q ∙ sym e))
      ]
      | inr q ↦ elim (added x l) [
        | inl old' ↦ absurd (fresh_slot n new x old' (ap length q ∙ e))
        | inr q' ↦ sym q ∙ q'
      ]
    ];
    unrolled = k.unrolled;
    unretired = k.unretired;
    no_certificate = ground (arith, k.no_certificate, k.unretired);
    no_evaluation = k.no_evaluation;
  }
    where
      prepared_back : count (has_prepared c) s.parties ≤ count (backs c) s.parties
      prepared_back =
          count_mono (has_prepared c) (backs c) s.parties
            (All-of_In _ s.parties (λ r _ h. ground arith))
