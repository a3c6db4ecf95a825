-- ===== src/AttemptModel/Forks.antt =====
-- Certificates without forks: one for each slot, each backed by two of the three honest parties.
use locus_v.Prelude.{
  ℕ, zero, suc, ◌+◌, ◌-◌, ◌≤◌, ◌<◌, ◌≡◌, sym, subst, ap, ◌⊎◌, inl, inr, Bool, true, false, ◌||◌,
  some, List, [], ◌∷◌, ◌++◌, arith, Bool-cases,
}
use locus_v.Prelude.Eq.{◌==◌, list_eq, option_eq, nat_eq, list_beq_iff, option_beq_iff}
use locus_v.Prelude.Lists.{length, All, drop_last, count, drop_last-append, length-append}
use locus_v.Prelude.Counts.{All-In}
use locus_v.Prelude.Sets.{contains, contains-In}
use locus_v.Prelude.Prefixes.{
  is_prefix, is_prefix-append, is_prefix_refl, is_prefix_trans, prefix_of_same_length,
  length-le_of_prefix,
}
use locus_v.AttemptModel.State.{
  request_eq, Chain, PartyState, ModelState, ModelScenario, honest_authorizers,
}
use locus_v.AttemptModel.Party.{is_anchored}
use locus_v.AttemptModel.Successors.{has_prepared}
use locus_v.AttemptModel.Step.{Move}
use locus_v.AttemptModel.Valid.{Fits, unlocked, locked}
use locus_v.AttemptModel.Sound.{IsSound, IsSoundCertificate, Sound}

-- The party has prepared `c`, or its chain has passed it.
abbrev pub backs : Chain → PartyState → Bool
backs c p = has_prepared c p || is_prefix c p.chain

-- The chain is empty or a certificate.
abbrev pub IsKnown : List Chain → Chain → Type 0
IsKnown cs c = (c ≡ []) ⊎ (contains cs c ≡ true)

-- Certificates are unique in their slot, and two of the three honest parties back each.
pub record IsForkFree (s : ModelState) : Type 0 where
  pub three : length s.parties ≡ honest_authorizers
  pub known : All (λ p. IsKnown s.certificates p.chain) s.parties
  pub fronts : (c : Chain) → contains s.certificates c ≡ true → IsKnown s.certificates (drop_last c)
  pub backed : (c : Chain) → contains s.certificates c ≡ true → 2 ≤ count (backs c) s.parties
  pub unique :
      (c d : Chain)
      → contains s.certificates c ≡ true
      → contains s.certificates d ≡ true
      → length c ≡ length d
      → c ≡ d
  pub unrolled : s.rollback_count ≡ 0
  pub unretired : s.retired_finalized ≡ false
  pub no_certificate : s.post_retirement_certificate ≡ false
  pub no_evaluation : s.post_retirement_evaluation ≡ false

pub IsSound-extends :
    (p : PartyState) (c : Chain)
    → IsSound p
    → p.lock ≡ some c
    → (length c ≡ length p.chain + 1) × (drop_last c ≡ p.chain)
IsSound-extends p c h e = go h.fits
  where
    go : Fits p → (length c ≡ length p.chain + 1) × (drop_last c ≡ p.chain)
    go (unlocked l k) = absurd (cc)
    go (locked r l k) =
        let q : c ≡ p.chain ++ r ∷ [] = ground (arith, e, l) in
        rw q (length-append p.chain (r ∷ []), drop_last-append p.chain r)

pub certificate_parts :
    (c : Chain)
    → IsSoundCertificate c
    → (length c ≡ length (drop_last c) + 1) × (is_prefix (drop_last c) c ≡ true)
certificate_parts c h =
    rw (h.extends, drop_last-append)
      (length-append h.front (h.request ∷ []), is_prefix-append h.front (h.request ∷ []))

backs_of_prefix :
    (c x : Chain) (q : PartyState) → q.chain ≡ x → is_prefix c x ≡ true → backs c q ≡ true
backs_of_prefix c x q e h = ground (arith, subst (λ y. is_prefix c y ≡ true) (sym e) h)

pub backs_cases :
    (c : Chain) (p : PartyState)
    → backs c p ≡ true
    → (p.lock ≡ some c) ⊎ (is_prefix c p.chain ≡ true)
backs_cases c p h = ground (arith, option_beq_iff p.lock (some c))

prefix_shorter : (c d : Chain) → is_prefix c d ≡ true → (c == d) ≡ false → length c < length d
prefix_shorter c d h e =
    ground (arith, length-le_of_prefix c d h, prefix_of_same_length c d h, list_beq_iff c d)

module _ (s : ModelState) (v : Sound s) (k : IsForkFree s) where
  pub certificate_at : (c : Chain) → contains s.certificates c ≡ true → IsSoundCertificate c
  certificate_at c m =
      All-In IsSoundCertificate s.certificates v.certificates (contains-In s.certificates c m)

  -- A certificate is a prefix of every one in a later slot.
  pub slot_prefix :
      (n : ℕ) (c d : Chain)
      → contains s.certificates c ≡ true
      → contains s.certificates d ≡ true
      → length d ≡ n + length c
      → is_prefix c d ≡ true
  slot_prefix zero c d m l e =
      subst (λ x. is_prefix c x ≡ true) (k.unique c d m l (omega arith)) (is_prefix_refl c)
  slot_prefix (suc n) c d m l e =
      let parts = certificate_parts d (certificate_at d l) in
      elim (k.fronts d l) [
        | inl q ↦
            absurd
              (omega (arith, (certificate_parts c (certificate_at c m)).0, parts.0, ap length q))
        | inr q ↦
            is_prefix_trans c (drop_last d) d
              (slot_prefix n c (drop_last d) m q (omega (arith, parts.0))) parts.1
      ]

  -- A certificate is a prefix of every chain that a party holds, if it is no longer.
  known_prefix :
      (c x : Chain)
      → contains s.certificates c ≡ true
      → IsKnown s.certificates x
      → length c ≤ length x
      → is_prefix c x ≡ true
  known_prefix c x m (inl q) l =
      absurd (omega (arith, (certificate_parts c (certificate_at c m)).0, ap length q))
  known_prefix c x m (inr q) l = slot_prefix (length x - length c) c x m q (omega arith)

  -- A move of a party keeps what it backs.
  pub Move-backs :
      {sc : ModelScenario} (p q : PartyState)
      → is_anchored sc ≡ false
      → IsSound p
      → (c : Chain) → contains s.certificates c ≡ true
      → Move sc s p q
      → backs c p ≡ true
      → backs c q ≡ true
  Move-backs p q h u c m (Move.vote r ready active unlock anchored new room e) b =
      rw e (ground arith)
  Move-backs p q h u c m (Move.prepare lock l ready ph n e) b = rw e (ground arith)
  Move-backs p q h u c m (Move.install d i ready f l e) b =
      backs_of_prefix c d q (ap (λ (r : PartyState). r.chain) e) (elim (backs_cases c p b) [
        | inl held ↦ elim l [
          | inl free ↦ absurd (cc)
          | inr own ↦
              subst (λ x. is_prefix c x ≡ true) (ground (arith, held, own)) (is_prefix_refl c)
        ]
        | inr past ↦ is_prefix_trans c p.chain d past (
            subst (λ x. is_prefix x d ≡ true) f
              (certificate_parts d (All-In IsSoundCertificate s.certificates v.certificates i)).1)
      ])
  Move-backs p q h u c m (Move.crash ready e) b = rw e b
  Move-backs p q h u c m (Move.trust_snapshot down mode e) b = rw e b
  Move-backs p q h u c m (Move.follow_anchor down mode live pre e) b = absurd (cc)
  Move-backs p q h u c m (Move.follow_quorum peer i down free mode live pre n e) b =
      (elim (Bool-cases (p.chain == peer.chain)) [
        | inl same ↦
            let o : p.chain ≡ peer.chain = (list_beq_iff p.chain peer.chain).0 same in
            rw (e, same) (subst (λ x. (has_prepared c p || is_prefix c x) ≡ true) o b)
        | inr moved ↦
            backs_of_prefix c peer.chain q (ap (λ (r : PartyState). r.chain) e)
              (elim (backs_cases c p b) [
                | inl held ↦
                    known_prefix c peer.chain m
                      (All-In (λ r. IsKnown s.certificates r.chain) s.parties k.known i)
                      (omega (
                        arith,
                        (IsSound-extends p c u held).0,
                        prefix_shorter p.chain peer.chain pre moved,
                      ))
                | inr past ↦ is_prefix_trans c p.chain peer.chain past pre
              ])
      ])
