-- ===== src/AttemptModel/Step.antt =====
-- The steps that the successor functions of prototype_final/locus/attempt_model.py list, as a relation
-- with their guards as facts, for the proofs of what is reachable. Nothing is proved of the other
-- direction, that each step is listed.
use locus_v.Prelude.{
  ℕ, ◌+◌, ◌≤◌, ◌<◌, ◌≡◌, ◌⊎◌, true, false, not, ◌&&◌, ◌||◌, none, some, [], ◌∷◌, ◌++◌,
  if◌then◌else◌,
}
use locus_v.Prelude.Eq.{◌==◌, bool_eq, nat_eq, list_eq, option_eq}
use locus_v.Prelude.Lists.{length, get_elem?, set, take, drop_last, last?, count, In}
use locus_v.Prelude.Counts.{sorted}
use locus_v.Prelude.Sets.{contains}
use locus_v.Prelude.Prefixes.{is_prefix}
use locus_v.AttemptModel.State.{
  Request, request_eq, Chain, PartyState, party_eq, ModelState, ModelScenario, mode_eq,
  unreconciled, fault_bound, authorization_quorum, budget,
}
use locus_v.AttemptModel.Party.{chain_le, request_le, party_le, is_anchored}
use locus_v.AttemptModel.Successors.{votes_for, has_prepared, is_fresh, stands_at, adopts}

-- One honest party goes from `p` to `q`, which leaves the rest of the state alone.
pub data Move (sc : ModelScenario) (s : ModelState) (p q : PartyState) : Type 0 where
  vote :
      (request : Request)
      → p.ready ≡ true
      → p.active ≡ true
      → p.lock ≡ none
      → (is_anchored sc ≡ true → (s.anchor_retired ≡ false) × (p.chain ≡ s.anchor_chain))
      → contains p.chain request ≡ false
      → length p.chain < budget
      → q ≡ record {
        chain = p.chain;
        lock = some (p.chain ++ request ∷ []);
        phase = 1;
        ready = true;
        active = true;
      }
      → Move sc s p q
  prepare :
      (lock : Chain)
      → p.lock ≡ some lock
      → p.ready ≡ true
      → p.phase ≡ 1
      → authorization_quorum ≤ fault_bound + count (votes_for lock) s.parties
      → q ≡ record p { phase = 2 }
      → Move sc s p q
  install :
      (certificate : Chain)
      → In certificate s.certificates
      → p.ready ≡ true
      → drop_last certificate ≡ p.chain
      → (p.lock ≡ none) ⊎ (p.lock ≡ some certificate)
      → q ≡ record { chain = certificate; lock = none; phase = 0; ready = true; active = p.active }
      → Move sc s p q
  crash : p.ready ≡ true → q ≡ record p { ready = false } → Move sc s p q
  trust_snapshot :
      p.ready ≡ false
      → sc.reconciliation ≡ unreconciled
      → q ≡ record p { ready = true }
      → Move sc s p q
  follow_anchor :
      p.ready ≡ false
      → is_anchored sc ≡ true
      → (not p.active && not s.anchor_retired) ≡ false
      → is_prefix p.chain s.anchor_chain ≡ true
      → q ≡ adopts p s.anchor_chain (not s.anchor_retired)
      → Move sc s p q
  follow_quorum :
      (peer : PartyState)
      → In peer s.parties
      → p.ready ≡ false
      → is_anchored sc ≡ false
      → (sc.reconciliation == unreconciled) ≡ false
      → (not p.active && peer.active) ≡ false
      → is_prefix p.chain peer.chain ≡ true
      → authorization_quorum ≤ fault_bound + count (stands_at peer.chain peer.active) s.parties
      → q ≡ adopts p peer.chain peer.active
      → Move sc s p q

-- A party restored from an old snapshot.
abbrev pub restored : PartyState → ℕ → PartyState
restored p n = record {
  chain = take n p.chain;
  lock = none;
  phase = 0;
  ready = false;
  active = true;
}

-- The parties of `s` with `q` at place `i`, in canonical order.
abbrev pub with_party : ModelState → ℕ → PartyState → ModelState
with_party s i q = record s { parties = sorted party_le (set s.parties i q) }

pub data Step (sc : ModelScenario) (s t : ModelState) : Type 0 where
  moves :
      (i : ℕ) (p q : PartyState)
      → get_elem? s.parties i ≡ some p
      → Move sc s p q
      → t ≡ with_party s i q
      → Step sc s t
  rolls_back :
      (i : ℕ) (p : PartyState) (n : ℕ)
      → get_elem? s.parties i ≡ some p
      → s.rollback_count < sc.rollback_limit
      → (restored p n == p) ≡ false
      → t ≡ record (with_party s i (restored p n)) { rollback_count = s.rollback_count + 1 }
      → Step sc s t
  certifies :
      (candidate : Chain) (p : PartyState)
      → In p s.parties
      → p.lock ≡ some candidate
      → contains s.certificates candidate ≡ false
      → authorization_quorum ≤ fault_bound + count (has_prepared candidate) s.parties
      → (is_anchored sc ≡ true
          → (s.anchor_retired ≡ false) × (drop_last candidate ≡ s.anchor_chain))
      → t ≡ record s {
        certificates = sorted chain_le (s.certificates ++ candidate ∷ []);
        post_retirement_certificate = s.post_retirement_certificate || s.retired_finalized;
        anchor_chain = if is_anchored sc then candidate else s.anchor_chain;
      }
      → Step sc s t
  evaluates :
      (certificate : Chain) (request : Request)
      → In certificate s.certificates
      → last? certificate ≡ some request
      → contains s.evaluated request ≡ false
      → authorization_quorum ≤ fault_bound + count (is_fresh certificate) s.parties
      → t ≡ record s {
        evaluated = sorted request_le (s.evaluated ++ request ∷ []);
        post_retirement_evaluation = s.post_retirement_evaluation || s.retired_finalized;
      }
      → Step sc s t
