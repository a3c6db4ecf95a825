-- ===== src/AttemptModel/Successors/Restores.antt =====
-- `_rollback_successors` and `_evaluate_successors` of prototype_final/locus/attempt_model.py.
use locus_v.Prelude.{
  ℕ, zero, suc, ◌+◌, Bool, true, false, ◌&&◌, ◌||◌, none, List, [], ◌∷◌, ◌++◌, leb, if◌then◌else◌,
}
use locus_v.Prelude.Eq.{◌==◌, nat_eq, bool_eq, pair_eq, list_eq, option_eq}
use locus_v.Prelude.Lists.{length, take, last?}
use locus_v.Prelude.Counts.{sorted}
use locus_v.Prelude.Sets.{contains}
use locus_v.Prelude.Prefixes.{is_prefix}
use locus_v.Prelude.Results.{ok, ◌>>=◌, gather, or_raise}
use locus_v.AttemptModel.State.{
  request_eq, Chain, index_error, Checked, PartyState, party_eq, ModelState, ModelScenario, mode_eq,
}
use locus_v.AttemptModel.Party.{request_le, replace_party}
use locus_v.AttemptModel.Successors.Actions.{Successor, for_parties, rollback, evaluate}
use locus_v.AttemptModel.Successors.Votes.{lacks_quorum}

-- range(n, n + k)
abbrev pub range_from : ℕ → ℕ → List ℕ
range_from n zero = []
range_from n (suc k) = n ∷ range_from (suc n) k

unfoldable pub rollback_to : ModelState → ℕ → PartyState → ℕ → Checked (List Successor)
rollback_to s i p prefix_length =
    let replacement : PartyState = record {
      chain = take prefix_length p.chain;
      lock = none;
      phase = 0;
      ready = false;
      active = true;
    } in
    if replacement == p then ok [] else do
      rolled ← replace_party s i replacement
      ok ((rollback i prefix_length, record rolled { rollback_count = s.rollback_count + 1 }) ∷ [])

-- The loop over the parties, below the limit.
unfoldable pub rollback_anywhere : ModelState → Checked (List Successor)
unfolding for_parties rollback_to
rollback_anywhere s =
    for_parties s λ i p. gather (rollback_to s i p) (range_from 0 (length p.chain + 1))

unfoldable pub rollback_successors : ModelState → ModelScenario → Checked (List Successor)
unfolding rollback_anywhere
rollback_successors s sc =
    if leb sc.rollback_limit s.rollback_count then ok [] else rollback_anywhere s

-- party.ready and party.active and _is_prefix(certificate, party.chain)
abbrev pub is_fresh : Chain → PartyState → Bool
is_fresh certificate p = p.ready && p.active && is_prefix certificate p.chain

unfoldable pub evaluate_with : ModelState → Chain → Checked (List Successor)
evaluate_with s certificate = or_raise (last? certificate) index_error >>= λ request.
    if contains s.evaluated request
    then ok []
    else if lacks_quorum s (is_fresh certificate)
    then ok []
    else ok (
        (
          evaluate request,
          record s {
            evaluated = sorted request_le (s.evaluated ++ request ∷ []);
            post_retirement_evaluation = s.post_retirement_evaluation || s.retired_finalized;
          },
        )
        ∷ [])

unfoldable pub evaluate_successors : ModelState → Checked (List Successor)
unfolding evaluate_with
evaluate_successors s = gather (evaluate_with s) s.certificates
