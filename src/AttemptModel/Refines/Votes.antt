-- ===== src/AttemptModel/Refines/Votes.antt =====
-- Votes, prepares and certificates are steps of the relation.
use locus_v.Prelude.{ℕ, ◌≡◌, refl, inl, inr, not, ◌||◌, Option, none, some, arith}
use locus_v.Prelude.Eq.{◌==◌, option_eq, list_eq, pair_eq, bool_eq, nat_eq, list_beq_iff}
use locus_v.Prelude.Lists.{get_elem?, drop_last, All, In}
use locus_v.Prelude.Counts.{All-In, All-sorted, sorted}
use locus_v.Prelude.Sets.{contains, to_set, All-to_set}
use locus_v.Prelude.Results.{Returns, Returns-gather}
use locus_v.AttemptModel.State.{
  request_eq, Chain, PartyState, party_eq, ModelState, ModelScenario, requests, mode_eq,
}
use locus_v.AttemptModel.Party.{chain_le}
use locus_v.AttemptModel.Successors.{
  vote_for, vote_successors, prepare_with, prepare_successors, votes_for, cannot_vote, off_anchor,
  is_spent, lacks_quorum, has_prepared, prepared_locks, certify_with, certificate_successors,
}
use locus_v.AttemptModel.Step.{Move, Step}
use locus_v.AttemptModel.Valid.{Fits, unlocked, locked, Returns-for_parties}
use locus_v.AttemptModel.Refines.Rules.{Returns-unless, prepared_locks-lock, IsStep, moved, Fits-at}

module _ (s : ModelState) (sc : ModelScenario) (fits : All Fits s.parties) where
  pub vote_successors-Step : Returns (All (IsStep s sc)) (vote_successors s sc)
  unfolding vote_successors
  vote_successors-Step = Returns-for_parties (IsStep s sc) s _ λ i p e.
      Returns-unless (IsStep s sc) (cannot_vote p) _ λ can.
        Returns-unless (IsStep s sc) (off_anchor s sc p.chain) _ λ anchored.
          Returns-gather (IsStep s sc) (vote_for s i p) requests λ r _.
            Returns-unless (IsStep s sc) (is_spent p r) _ λ spare.
              moved s sc fits i p _ _ e (locked r refl (inl refl)) (
                Move.vote r (ground arith) (ground arith) (ground arith)
                  (λ h. ground (arith, list_beq_iff p.chain s.anchor_chain)) (ground arith)
                  (ground arith) refl)

  prepare_with-Step :
      (i : ℕ) (p : PartyState)
      → get_elem? s.parties i ≡ some p
      → (lock : Option Chain) → p.lock ≡ lock
      → Returns (All (IsStep s sc)) (prepare_with s i p lock)
  unfolding prepare_with
  prepare_with-Step i p e none h = tt
  prepare_with-Step i p e (some lock) h =
      Returns-unless (IsStep s sc) (not (p.phase == 1) || not p.ready) _ λ voted.
        Returns-unless (IsStep s sc) (lacks_quorum s (votes_for lock)) _ λ enough.
          moved s sc fits i p _ _ e (refit (Fits-at s sc fits i e))
            (Move.prepare lock h (ground arith) (ground arith) (ground arith) refl)
    where
      refit : Fits p → Fits (record p { phase = 2 })
      refit (unlocked l k) = absurd (cc)
      refit (locked r l k) = locked r l (inr refl)

  pub prepare_successors-Step : Returns (All (IsStep s sc)) (prepare_successors s)
  unfolding prepare_successors
  prepare_successors-Step =
      Returns-for_parties (IsStep s sc) s _ λ i p e. prepare_with-Step i p e p.lock refl

  pub certificate_successors-Step : Returns (All (IsStep s sc)) (certificate_successors s sc)
  unfolding certificate_successors
  certificate_successors-Step = Returns-gather (IsStep s sc) (certify_with s sc) _ λ c m.
      Returns-unless (IsStep s sc) (contains s.certificates c) _ λ new.
        Returns-unless (IsStep s sc) (lacks_quorum s (has_prepared c)) _ λ enough.
          Returns-unless (IsStep s sc) (off_anchor s sc (drop_last c)) _ λ anchored.
            let (p, q, l) = locker c m in
            (
              Step.certifies c p q l new (ground arith)
                  (λ h. ground (arith, list_beq_iff (drop_last c) s.anchor_chain)) refl,
              tt,
            )
    where
      locker :
          (c : Chain)
          → In c (sorted chain_le (to_set (prepared_locks s.parties)))
          → (p : PartyState) × In p s.parties × (p.lock ≡ some c)
      locker c m =
          All-In (λ c. (p : PartyState) × In p s.parties × (p.lock ≡ some c)) _
            (All-sorted _ chain_le _ (All-to_set _ _ (prepared_locks-lock s.parties))) m
