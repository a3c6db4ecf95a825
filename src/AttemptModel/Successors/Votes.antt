-- ===== src/AttemptModel/Successors/Votes.antt =====
-- `_vote_successors`, `_prepare_successors` and `_certificate_successors` of
-- prototype_final/locus/attempt_model.py.
use locus_v.Prelude.{
  ℕ, ◌+◌, Bool, true, not, ◌&&◌, ◌||◌, Option, none, some, List, [], ◌∷◌, ◌++◌, ltb, leb,
  if◌then◌else◌,
}
use locus_v.Prelude.Eq.{◌==◌, nat_eq, bool_eq, pair_eq, list_eq, option_eq}
use locus_v.Prelude.Lists.{length, drop_last, count}
use locus_v.Prelude.Counts.{sorted}
use locus_v.Prelude.Sets.{contains, to_set}
use locus_v.Prelude.Results.{ok, gather}
use locus_v.AttemptModel.State.{
  Request, request_eq, Chain, Checked, PartyState, party_eq, ModelState, ModelScenario, mode_eq,
  fault_bound, authorization_quorum, budget, requests,
}
use locus_v.AttemptModel.Party.{is_none, chain_le, is_anchored}
use locus_v.AttemptModel.Successors.Actions.{
  Successor, for_parties, replaced, vote, install_vote, certify,
}

-- The guards of each loop, by which it goes on to the next round.
abbrev pub cannot_vote : PartyState → Bool
cannot_vote p = not p.ready || not p.active || not (is_none p.lock)

abbrev pub off_anchor : ModelState → ModelScenario → Chain → Bool
off_anchor s sc chain = is_anchored sc && (s.anchor_retired || not (chain == s.anchor_chain))

abbrev pub is_spent : PartyState → Request → Bool
is_spent p request = contains p.chain request || leb budget (length p.chain)

abbrev pub lacks_quorum : ModelState → (PartyState → Bool) → Bool
lacks_quorum s test = ltb (fault_bound + count test s.parties) authorization_quorum

unfoldable pub vote_for : ModelState → ℕ → PartyState → Request → Checked (List Successor)
vote_for s i p request =
    let candidate = p.chain ++ request ∷ [] in
    if is_spent p request
    then ok []
    else replaced s i
        (record { chain = p.chain; lock = some candidate; phase = 1; ready = true; active = true })
        (vote i request (length candidate))

unfoldable pub vote_successors : ModelState → ModelScenario → Checked (List Successor)
unfolding for_parties vote_for
vote_successors s sc = for_parties s λ i p.
    if cannot_vote p
    then ok []
    else if off_anchor s sc p.chain
    then ok []
    else gather (vote_for s i p) requests

-- candidate.lock == lock and candidate.phase >= 1
abbrev pub votes_for : Chain → PartyState → Bool
votes_for lock p = p.lock == some lock && leb 1 p.phase

abbrev pub has_prepared : Chain → PartyState → Bool
has_prepared lock p = p.lock == some lock && p.phase == 2

unfoldable pub prepare_with : ModelState → ℕ → PartyState → Option Chain → Checked (List Successor)
prepare_with s i p none = ok []
prepare_with s i p (some lock) =
    if not (p.phase == 1) || not p.ready
    then ok []
    else if lacks_quorum s (votes_for lock)
    then ok []
    else replaced s i (record p { phase = 2 }) (install_vote i lock)

unfoldable pub prepare_successors : ModelState → Checked (List Successor)
unfolding for_parties prepare_with
prepare_successors s = for_parties s λ i p. prepare_with s i p p.lock

abbrev pub held : Option Chain → List Chain
held none = []
held (some lock) = lock ∷ []

-- { party.lock for party in parties if party.phase == 2 and party.lock is not None }
abbrev pub prepared_locks : List PartyState → List Chain
prepared_locks [] = []
prepared_locks (p ∷ ps) = (if p.phase == 2 then held p.lock else []) ++ prepared_locks ps

unfoldable pub certify_with : ModelState → ModelScenario → Chain → Checked (List Successor)
certify_with s sc candidate =
    if contains s.certificates candidate
    then ok []
    else if lacks_quorum s (has_prepared candidate)
    then ok []
    else if off_anchor s sc (drop_last candidate)
    then ok []
    else ok (
        (
          certify candidate,
          record s {
            certificates = sorted chain_le (s.certificates ++ candidate ∷ []);
            post_retirement_certificate = s.post_retirement_certificate || s.retired_finalized;
            anchor_chain = if is_anchored sc then candidate else s.anchor_chain;
          },
        )
        ∷ [])

unfoldable pub certificate_successors : ModelState → ModelScenario → Checked (List Successor)
unfolding certify_with
certificate_successors s sc =
    gather (certify_with s sc) (sorted chain_le (to_set (prepared_locks s.parties)))
