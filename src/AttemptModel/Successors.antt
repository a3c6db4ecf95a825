-- ===== src/AttemptModel/Successors.antt =====
-- The eight families of successors, and `_successors`, of prototype_final/locus/attempt_model.py.
mod Actions
mod Votes
mod Moves
mod Restores
pub use Actions.{Action}
unfoldable pub use Actions.{Successor, for_parties, replaced}
unfoldable pub use Votes.{
  cannot_vote, off_anchor, is_spent, lacks_quorum, vote_for, vote_successors, votes_for,
  has_prepared, prepare_with, prepare_successors, held, prepared_locks, certify_with,
  certificate_successors,
}
unfoldable pub use Moves.{
  cannot_install, install_with, install_successors, crash_successors, adopts, stands_at,
  reconcile_to, head, observed_heads, reconcile_with, reconcile_successors,
}
unfoldable pub use Restores.{
  range_from, rollback_to, rollback_anywhere, rollback_successors, is_fresh, evaluate_with,
  evaluate_successors,
}
use locus_v.Prelude.{
  ℕ, zero, suc, ◌+◌, Bool, true, false, not, ◌&&◌, ◌||◌, Option, none, some, List, [], ◌∷◌, ◌++◌,
  map, ltb, leb, if◌then◌else◌,
}
use locus_v.Prelude.Eq.{◌==◌, nat_eq, bool_eq, pair_eq, list_eq, option_eq}
use locus_v.Prelude.Lists.{length, get_elem?, take, drop_last, last?, count}
use locus_v.Prelude.Counts.{sorted}
use locus_v.Prelude.Sets.{contains, to_set}
use locus_v.Prelude.Prefixes.{is_prefix}
use locus_v.Prelude.Results.{Result, ok, raise, ◌>>=◌, gather, or_raise}
use locus_v.AttemptModel.State.{
  Request, request_eq, Chain, ModelError, index_error, Checked, PartyState, party_eq, ModelState,
  ModelScenario, unreconciled, mode_eq, fault_bound, authorization_quorum, budget, requests,
}
use locus_v.AttemptModel.Party.{
  is_none, chain_le, request_le, head_le, replace_party, is_anchored, unique_party_indices,
}

-- [*xs, *ys]
abbrev pub joined : Checked (List Successor) → Checked (List Successor) → Checked (List Successor)
joined m n = do xs ← m; ys ← n; ok (xs ++ ys)

-- `_successors`, before its `sorted`: the search sorts by the printed action.
unfoldable pub all_successors : ModelState → ModelScenario → Checked (List Successor)
all_successors s sc = joined (vote_successors s sc) (
    joined (prepare_successors s) (
      joined (certificate_successors s sc) (
        joined (install_successors s) (
          joined (crash_successors s) (
            joined (reconcile_successors s sc)
              (joined (rollback_successors s sc) (evaluate_successors s)))))))

-- `_successors`: the order on the pairs of a printed action and a printed state is an argument.
unfoldable pub successors :
    (Successor → Successor → Bool) → ModelState → ModelScenario → Checked (List Successor)
unfolding all_successors
successors before s sc = do all ← all_successors s sc; ok (sorted before all)
