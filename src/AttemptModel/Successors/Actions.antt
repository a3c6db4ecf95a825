-- ===== src/AttemptModel/Successors/Actions.antt =====
-- Actions, successors and the loop over the distinct parties of
-- prototype_final/locus/attempt_model.py. An action holds what the source's f-string prints.
use locus_v.Prelude.{ℕ, Bool, List, [], ◌∷◌}
use locus_v.Prelude.Eq.{nat_eq, bool_eq, pair_eq, list_eq, option_eq}
use locus_v.Prelude.Lists.{get_elem?}
use locus_v.Prelude.Results.{ok, ◌>>=◌, gather, or_raise}
use locus_v.AttemptModel.State.{
  Request, request_eq, Chain, index_error, Checked, PartyState, party_eq, ModelState, mode_eq,
}
use locus_v.AttemptModel.Party.{replace_party, unique_party_indices}

pub data Action : Type 0 where
  vote : (index : ℕ) (request : Request) (slot : ℕ) → Action
  install_vote : (index : ℕ) (lock : Chain) → Action
  certify : (candidate : Chain) → Action
  install : (index : ℕ) (certificate : Chain) → Action
  crash : (index : ℕ) → Action
  reconcile_none : (index : ℕ) → Action
  reconcile_anchor : (index : ℕ) (slot : ℕ) → Action
  reconcile_quorum : (index : ℕ) (slot : ℕ) (active : Bool) → Action
  rollback : (index : ℕ) (slot : ℕ) → Action
  evaluate : (request : Request) → Action
  seed_retirement seed_snapshots : Action

abbrev pub Successor : Type 0
Successor = Action × ModelState

-- `for index in _unique_party_indices(state): party = state.parties[index]; ...`
unfoldable pub for_parties :
    ModelState → (ℕ → PartyState → Checked (List Successor)) → Checked (List Successor)
for_parties s body =
    gather (λ i. or_raise (get_elem? s.parties i) index_error >>= λ p. body i p)
      (unique_party_indices s)

-- One successor, or none where the loop goes on.
abbrev pub replaced : ModelState → ℕ → PartyState → Action → Checked (List Successor)
replaced s i q a = do t ← replace_party s i q; ok ((a, t) ∷ [])
