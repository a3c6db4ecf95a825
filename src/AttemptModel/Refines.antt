-- ===== src/AttemptModel/Refines.antt =====
-- The successor functions return, and make only steps of the relation.
mod Rules
mod Votes
mod Moves
pub use Rules.{readied, adopts-Fits}
use locus_v.Prelude.{
  ℕ, zero, suc, ◌+◌, ◌≤◌, ◌<◌, ◌≡◌, refl, subst, ◌⊎◌, inl, inr, Bool, true, false, not, ◌&&◌, ◌||◌,
  Option, none, some, List, [], ◌∷◌, ◌++◌, map, arith, Bool-cases, Option-cases, ltb, leb,
  if◌then◌else◌,
}
use locus_v.Prelude.Eq.{
  ◌==◌, option_eq, list_eq, pair_eq, bool_eq, nat_eq, list_beq_iff, option_beq_iff,
}
use locus_v.Prelude.Lists.{
  length, get_elem?, drop_last, last?, All, In, here, there, count, All-append,
}
use locus_v.Prelude.Counts.{All-get_elem?, All-In, All-mono, All-sorted, get_elem?-In, sorted}
use locus_v.Prelude.Sets.{contains, to_set, All-to_set}
use locus_v.Prelude.Prefixes.{is_prefix}
use locus_v.Prelude.Results.{
  Result, ok, raise, ◌>>=◌, Returns, Returns-bind, Returns-gather, gather, or_raise,
}
use locus_v.AttemptModel.State.{
  Request, request_eq, Chain, Checked, PartyState, party_eq, ModelState, ModelScenario, requests,
  unreconciled, mode_eq, fault_bound, authorization_quorum, budget,
}
use locus_v.AttemptModel.Party.{is_none, chain_le, head_le, is_anchored}
use locus_v.AttemptModel.Successors.{
  Action, Successor, for_parties, replaced, vote_for, vote_successors, prepare_with,
  prepare_successors, votes_for, cannot_vote, off_anchor, is_spent, lacks_quorum, has_prepared,
  prepared_locks, held, rollback_successors, rollback_to, range_from, evaluate_with,
  evaluate_successors, is_fresh, joined, all_successors, successors, crash_successors, adopts, head,
  observed_heads, reconcile_to, reconcile_successors, reconcile_with, stands_at, certify_with,
  certificate_successors, install_with, install_successors, cannot_install,
}
use locus_v.AttemptModel.Step.{Move, Step, restored}
use locus_v.AttemptModel.Valid.{
  Fits, unlocked, locked, Returns-for_parties, Returns-replaced, replace_party_lem,
}
use locus_v.AttemptModel.Refines.Rules.{
  Returns-unless, held-lock, prepared_locks-lock, heads-peer, Returns-if, IsStep, moved, Fits-at,
}
use locus_v.AttemptModel.Refines.Votes.{
  vote_successors-Step, prepare_successors-Step, certificate_successors-Step,
}
use locus_v.AttemptModel.Refines.Moves.{
  install_successors-Step, crash_successors-Step, reconcile_successors-Step,
}

module _ (s : ModelState) (sc : ModelScenario) (fits : All Fits s.parties) where
  pub rollback_successors-Step : Returns (All (IsStep s sc)) (rollback_successors s sc)
  unfolding rollback_successors
  rollback_successors-Step =
      Returns-unless (IsStep s sc) (leb sc.rollback_limit s.rollback_count) _ λ spare.
        Returns-for_parties (IsStep s sc) s _ λ i p e.
          Returns-gather (IsStep s sc) (rollback_to s i p) (range_from 0 (length p.chain + 1))
            λ n m. Returns-unless (IsStep s sc) (restored p n == p) _ λ changed.
              rw (replace_party_lem s i (restored p n) fits (unlocked refl refl), ◌>>=◌)
                (Step.rolls_back i p n e (ground arith) changed refl, tt)

  evaluate_with-Step :
      (c : Chain)
      → In c s.certificates
      → (r : Request) → last? c ≡ some r
      → Returns (All (IsStep s sc)) (evaluate_with s c)
  unfolding evaluate_with
  evaluate_with-Step c m r e = rw e (
      Returns-unless (IsStep s sc) (contains s.evaluated r) _ λ new.
        Returns-unless (IsStep s sc) (lacks_quorum s (is_fresh c)) _
          λ enough. (Step.evaluates c r m e new (ground arith) refl, tt))

  pub evaluate_successors-Step :
      All (λ c. (r : Request) × (last? c ≡ some r)) s.certificates
      → Returns (All (IsStep s sc)) (evaluate_successors s)
  unfolding evaluate_successors
  evaluate_successors-Step h = Returns-gather (IsStep s sc) (evaluate_with s) s.certificates λ c m.
      let (r, e) = All-In (λ c. (r : Request) × (last? c ≡ some r)) s.certificates h m in
      evaluate_with-Step c m r e

  Returns-append :
      (m n : Checked (List Successor))
      → Returns (All (IsStep s sc)) m
      → Returns (All (IsStep s sc)) n
      → Returns (All (IsStep s sc)) (joined m n)
  Returns-append (ok xs) (ok ys) h k = All-append (IsStep s sc) xs ys h k
  Returns-append (ok xs) (raise e) h k = absurd k
  Returns-append (raise e) n h k = absurd h

  -- From a state whose parties fit and whose certificates name a last request, `_successors`
  -- returns, and every successor that it lists is a step of the relation.
  pub successors-Step :
      (before : Successor → Successor → Bool)
      → All (λ c. (r : Request) × (last? c ≡ some r)) s.certificates
      → Returns (All (IsStep s sc)) (successors before s sc)
  unfolding successors
  successors-Step before h =
      Returns-bind (All (IsStep s sc)) (All (IsStep s sc)) (all_successors s sc) _ all_steps
        λ xs steps. All-sorted (IsStep s sc) before xs steps
    where
      all_steps : Returns (All (IsStep s sc)) (all_successors s sc)
      all_steps = Returns-append _ _ (vote_successors-Step s sc fits) (
          Returns-append _ _ (prepare_successors-Step s sc fits) (
            Returns-append _ _ (certificate_successors-Step s sc fits) (
              Returns-append _ _ (install_successors-Step s sc fits) (
                Returns-append _ _ (crash_successors-Step s sc fits) (
                  Returns-append _ _ (reconcile_successors-Step s sc fits)
                    (Returns-append _ _ rollback_successors-Step (evaluate_successors-Step h)))))))
