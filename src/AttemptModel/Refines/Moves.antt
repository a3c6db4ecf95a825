-- ===== src/AttemptModel/Refines/Moves.antt =====
-- Installations, crashes and reconciliations are steps of the relation.
use locus_v.Prelude.{ℕ, ◌≡◌, refl, subst, Bool, true, false, not, ◌&&◌, some, arith}
use locus_v.Prelude.Eq.{
  ◌==◌, option_eq, list_eq, pair_eq, bool_eq, nat_eq, list_beq_iff, option_beq_iff,
}
use locus_v.Prelude.Lists.{get_elem?, drop_last, All, In}
use locus_v.Prelude.Counts.{All-In, All-sorted}
use locus_v.Prelude.Sets.{All-to_set}
use locus_v.Prelude.Prefixes.{is_prefix}
use locus_v.Prelude.Results.{Returns, Returns-gather}
use locus_v.AttemptModel.State.{
  request_eq, Chain, PartyState, party_eq, ModelState, ModelScenario, unreconciled, mode_eq,
}
use locus_v.AttemptModel.Party.{head_le, is_anchored}
use locus_v.AttemptModel.Successors.{
  lacks_quorum, crash_successors, head, observed_heads, reconcile_to, reconcile_successors,
  stands_at, install_with, install_successors, cannot_install,
}
use locus_v.AttemptModel.Step.{Move}
use locus_v.AttemptModel.Valid.{Fits, unlocked, Returns-for_parties}
use locus_v.AttemptModel.Refines.Rules.{
  Returns-unless, readied, adopts-Fits, heads-peer, Returns-if, IsStep, moved, Fits-at,
}

module _ (s : ModelState) (sc : ModelScenario) (fits : All Fits s.parties) where
  pub install_successors-Step : Returns (All (IsStep s sc)) (install_successors s)
  unfolding install_successors
  install_successors-Step = Returns-for_parties (IsStep s sc) s _ λ i p e.
      Returns-unless (IsStep s sc) (not p.ready) _ λ ready.
        Returns-gather (IsStep s sc) (install_with s i p) s.certificates λ c m.
          Returns-unless (IsStep s sc) (cannot_install p c) _ λ can.
            moved s sc fits i p _ _ e (unlocked refl refl) (
              Move.install c m (ground arith) (ground (arith, list_beq_iff (drop_last c) p.chain))
                (ground (arith, option_beq_iff p.lock (some c))) refl)

  pub crash_successors-Step : Returns (All (IsStep s sc)) (crash_successors s)
  unfolding crash_successors
  crash_successors-Step = Returns-for_parties (IsStep s sc) s _ λ i p e.
      Returns-unless (IsStep s sc) (not p.ready) _ λ ready.
        moved s sc fits i p _ _ e (readied p false (Fits-at s sc fits i e))
          (Move.crash (ground arith) refl)

  observed-peer :
      (h : Chain × Bool)
      → In h (observed_heads s.parties)
      → (peer : PartyState) × In peer s.parties × (head peer ≡ h)
  observed-peer h m =
      All-In (λ c. (peer : PartyState) × In peer s.parties × (head peer ≡ c)) _
        (All-sorted _ head_le _ (All-to_set _ _ (heads-peer s.parties))) m

  reconcile_to-Step :
      (i : ℕ) (p : PartyState)
      → get_elem? s.parties i ≡ some p
      → p.ready ≡ false
      → is_anchored sc ≡ false
      → (sc.reconciliation == unreconciled) ≡ false
      → (peer : PartyState) → In peer s.parties
      → Returns (All (IsStep s sc)) (reconcile_to s i p (peer.chain, peer.active))
  unfolding reconcile_to
  reconcile_to-Step i p e down free untrusting peer m =
      Returns-unless (IsStep s sc) (not (is_prefix p.chain peer.chain)) _ λ extends.
        Returns-unless (IsStep s sc) (not p.active && peer.active) _ λ live.
          Returns-unless (IsStep s sc) (lacks_quorum s (stands_at peer.chain peer.active)) _
            λ enough.
              moved s sc fits i p _ _ e
                (adopts-Fits p peer.chain peer.active (Fits-at s sc fits i e))
                (Move.follow_quorum peer m down free untrusting live (ground arith) (ground arith)
                  refl)

  pub reconcile_successors-Step : Returns (All (IsStep s sc)) (reconcile_successors s sc)
  unfolding reconcile_successors
  reconcile_successors-Step = Returns-for_parties (IsStep s sc) s _ λ i p e.
      Returns-unless (IsStep s sc) p.ready _ λ down.
        Returns-if (IsStep s sc) (sc.reconciliation == unreconciled) _ _
          (λ none.
            moved s sc fits i p _ _ e (readied p true (Fits-at s sc fits i e))
              (Move.trust_snapshot down ((mode_eq.same_iff _ _).0 none) refl))
          λ some.
            Returns-if (IsStep s sc) (is_anchored sc) _ _
              (λ anchored.
                Returns-unless (IsStep s sc) (not (is_prefix p.chain s.anchor_chain)) _ λ extends.
                  Returns-unless (IsStep s sc) (not p.active && not s.anchor_retired) _ λ live.
                    moved s sc fits i p _ _ e
                      (adopts-Fits p s.anchor_chain (not s.anchor_retired) (Fits-at s sc fits i e))
                      (Move.follow_anchor down anchored live (ground arith) refl))
              λ free.
                Returns-gather (IsStep s sc) (reconcile_to s i p) (observed_heads s.parties) λ h m.
                  let (peer, k, q) = observed-peer h m in
                  subst (λ t. Returns (All (IsStep s sc)) (reconcile_to s i p t)) q
                    (reconcile_to-Step i p e down free some peer k)
