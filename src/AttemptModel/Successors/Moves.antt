-- ===== src/AttemptModel/Successors/Moves.antt =====
-- `_install_successors`, `_crash_successors` and `_reconcile_successors` of
-- prototype_final/locus/attempt_model.py.
use locus_v.Prelude.{
  ℕ, Bool, true, false, not, ◌&&◌, ◌||◌, none, some, List, [], map, if◌then◌else◌,
}
use locus_v.Prelude.Eq.{◌==◌, nat_eq, bool_eq, pair_eq, list_eq, option_eq}
use locus_v.Prelude.Lists.{length, drop_last}
use locus_v.Prelude.Counts.{sorted}
use locus_v.Prelude.Sets.{to_set}
use locus_v.Prelude.Prefixes.{is_prefix}
use locus_v.Prelude.Results.{ok, gather}
use locus_v.AttemptModel.State.{
  request_eq, Chain, Checked, PartyState, party_eq, ModelState, ModelScenario, unreconciled,
  mode_eq,
}
use locus_v.AttemptModel.Party.{is_none, head_le, is_anchored}
use locus_v.AttemptModel.Successors.Actions.{
  Successor, for_parties, replaced, install, crash, reconcile_none, reconcile_anchor,
  reconcile_quorum,
}
use locus_v.AttemptModel.Successors.Votes.{lacks_quorum}

abbrev pub cannot_install : PartyState → Chain → Bool
cannot_install p certificate =
    not (drop_last certificate == p.chain)
    || (not (is_none p.lock) && not (p.lock == some certificate))

unfoldable pub install_with : ModelState → ℕ → PartyState → Chain → Checked (List Successor)
install_with s i p certificate =
    if cannot_install p certificate
    then ok []
    else replaced s i
        (record { chain = certificate; lock = none; phase = 0; ready = true; active = p.active })
        (install i certificate)

unfoldable pub install_successors : ModelState → Checked (List Successor)
unfolding for_parties install_with
install_successors s =
    for_parties s λ i p. if not p.ready then ok [] else gather (install_with s i p) s.certificates

unfoldable pub crash_successors : ModelState → Checked (List Successor)
unfolding for_parties
crash_successors s =
    for_parties s
      λ i p. if not p.ready then ok [] else replaced s i (record p { ready = false }) (crash i)

-- The party after it adopts a chain: it keeps its lock only where the chain did not move.
abbrev pub adopts : PartyState → Chain → Bool → PartyState
adopts p target target_active =
    let preserve_lock = p.chain == target in
    record {
      chain = target;
      lock = if preserve_lock then p.lock else none;
      phase = if preserve_lock then p.phase else 0;
      ready = true;
      active = target_active;
    }

-- candidate.chain == target_chain and candidate.active == target_active
abbrev pub stands_at : Chain → Bool → PartyState → Bool
stands_at target target_active q = q.chain == target && q.active == target_active

unfoldable pub reconcile_to : ModelState → ℕ → PartyState → Chain × Bool → Checked (List Successor)
reconcile_to s i p (target, target_active) =
    if not (is_prefix p.chain target)
    then ok []
    else if not p.active && target_active
    then ok []
    else if lacks_quorum s (stands_at target target_active)
    then ok []
    else replaced s i (adopts p target target_active)
        (reconcile_quorum i (length target) target_active)

abbrev pub head : PartyState → Chain × Bool
head p = (p.chain, p.active)

-- sorted({(party.chain, party.active) for party in parties})
abbrev pub observed_heads : List PartyState → List (Chain × Bool)
observed_heads ps = sorted head_le (to_set (map head ps))

unfoldable pub reconcile_with :
    ModelState → ModelScenario → ℕ → PartyState → Checked (List Successor)
unfolding reconcile_to
reconcile_with s sc i p =
    if p.ready
    then ok []
    else if sc.reconciliation == unreconciled
    then replaced s i (record p { ready = true }) (reconcile_none i)
    else if is_anchored sc
    then (if not (is_prefix p.chain s.anchor_chain)
        then ok []
        else if not p.active && not s.anchor_retired
        then ok []
        else replaced s i (adopts p s.anchor_chain (not s.anchor_retired))
            (reconcile_anchor i (length s.anchor_chain)))
    else gather (reconcile_to s i p) (observed_heads s.parties)

unfoldable pub reconcile_successors : ModelState → ModelScenario → Checked (List Successor)
unfolding for_parties reconcile_with
reconcile_successors s sc = for_parties s (reconcile_with s sc)
