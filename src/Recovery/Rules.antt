-- ===== src/Recovery/Rules.antt =====
-- What a step of prototype_final/locus/recovery_state.py does to a state.
use locus_v.Prelude.{ℕ, ◌+◌, ◌≤◌, not, Option, none, some, ◌≡◌, arith, sym, ap, ◌∙◌}
use locus_v.Prelude.Eq.{◌==◌, nat_eq, bool_eq, list_eq, option_eq, eq_of_beq}
use locus_v.Prelude.Results.{ok, or_raise, bind-ok, raise_if-ok, or_raise-ok}
use locus_v.Contracts.Values.{
  Text, index_error, identifier, is_none, check_binding, IsIdentifier, IsPositive, max_epoch,
}
use locus_v.Contracts.Accepts.{identifier-IsIdentifier}
use locus_v.Recovery.State.{
  RecoveryPhase, bootstrap, descriptor_verification, current_state, backup_retrieval, policy,
  threshold_selection, authorization, suite_recovery, decryption, key_identity, successor, complete,
  place, phase_eq, RecoveryClientState, client_eq, check_client, RecoveryTransitionEvent,
}
use locus_v.Recovery.Transitions.{next_phase, build, bind_epoch, recover}

-- The epoch is unbound up to the verification of the descriptor, and bound and valid from there on.
pub data Binding (s : RecoveryClientState) : Type 0 where
  unbound : place s.phase ≤ 1 → s.backup_id ≡ none → s.epoch ≡ none → Binding s
  bound :
      (b : Text) (n : ℕ)
      → 2 ≤ place s.phase
      → s.backup_id ≡ some b
      → s.epoch ≡ some n
      → IsIdentifier b
      → IsPositive max_epoch n
      → Binding s

pub record IsGood (s : RecoveryClientState) : Type 0 where
  pub named : IsIdentifier s.operation_id
  pub handle : IsIdentifier s.recovery_handle
  pub binding : Binding s

-- The phase does not go back; the handle and a bound epoch stay.
pub record Before (s t : RecoveryClientState) : Type 0 where
  pub forward : place s.phase ≤ place t.phase
  pub same_handle : t.recovery_handle ≡ s.recovery_handle
  pub fixed : (b : Text) → s.backup_id ≡ some b → (t.backup_id ≡ s.backup_id) × (t.epoch ≡ s.epoch)

next_phase-place : (p q : RecoveryPhase) → next_phase p ≡ some q → place q ≡ place p + 1
next_phase-place bootstrap q h = ground (arith, h)
next_phase-place descriptor_verification q h = ground (arith, h)
next_phase-place current_state q h = ground (arith, h)
next_phase-place backup_retrieval q h = ground (arith, h)
next_phase-place policy q h = ground (arith, h)
next_phase-place threshold_selection q h = ground (arith, h)
next_phase-place authorization q h = ground (arith, h)
next_phase-place suite_recovery q h = ground (arith, h)
next_phase-place decryption q h = ground (arith, h)
next_phase-place key_identity q h = ground (arith, h)
next_phase-place successor q h = ground (arith, h)
next_phase-place complete q h = absurd (cc)

pub build-ok :
    (s t : RecoveryClientState)
    → build s ≡ ok t
    → (s ≡ t)
      × IsIdentifier s.operation_id
      × IsIdentifier s.recovery_handle
      × (check_binding s.backup_id s.epoch ≡ ok tt)
unfolding check_client
build-ok s t h =
    let (u, checked, rest) = bind-ok (check_client s) _ _ h in
    let (o, named, h1) = bind-ok (identifier s.operation_id) _ _ checked in
    let (p, handled, h1b) = bind-ok (identifier s.recovery_handle) _ _ h1 in
    let (_, h2) = raise_if-ok (not (is_none s.backup_id == is_none s.epoch)) _ _ _ h1b in
    (
      ground (arith, rest),
      identifier-IsIdentifier s.operation_id o named,
      identifier-IsIdentifier s.recovery_handle p handled,
      h2,
    )

-- The parts of a step that returned.
pub record Recovered (s t : RecoveryClientState) (e : RecoveryTransitionEvent) : Type 0 where
  pub binding : Option Text × Option ℕ
  pub bound_by : bind_epoch s e ≡ ok binding
  pub in_phase : e.completed_phase ≡ s.phase
  pub onward : place t.phase ≡ place s.phase + 1
  pub same_operation : t.operation_id ≡ s.operation_id
  pub same_backup : t.backup_id ≡ binding.0
  pub same_epoch : t.epoch ≡ binding.1
  pub named : IsIdentifier s.operation_id
  pub handle : IsIdentifier s.recovery_handle
  pub kept_handle : t.recovery_handle ≡ s.recovery_handle
  pub checked : check_binding binding.0 binding.1 ≡ ok tt

pub recover-Recovered :
    (s t : RecoveryClientState) (e : RecoveryTransitionEvent) → recover s e ≡ ok t → Recovered s t e
unfolding recover
recover-Recovered s t e h =
    let (_, h1) = raise_if-ok (s.phase == complete) _ _ _ h in
    let (matches, h2) = raise_if-ok (not (e.completed_phase == s.phase)) _ _ _ h1 in
    let (binding, bound_by, h3) = bind-ok (bind_epoch s e) _ _ h2 in
    let (following, found, h4) = bind-ok (or_raise (next_phase s.phase) index_error) _ _ h3 in
    let (same, named, handle, checked) = build-ok _ t h4 in
    record {
      binding = binding;
      bound_by = bound_by;
      in_phase = eq_of_beq e.completed_phase s.phase (ground (arith, matches));
      onward =
          ap (λ x. place x.phase) (sym same)
          ∙ next_phase-place s.phase following (or_raise-ok _ _ _ found);
      same_operation = ap (λ x. x.operation_id) (sym same);
      same_backup = ap (λ x. x.backup_id) (sym same);
      same_epoch = ap (λ x. x.epoch) (sym same);
      named = named;
      handle = handle;
      kept_handle = ap (λ x. x.recovery_handle) (sym same);
      checked = checked;
    }
