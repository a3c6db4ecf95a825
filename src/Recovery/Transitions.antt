-- ===== src/Recovery/Transitions.antt =====
-- StableRecoveryStateMachine of prototype_final/locus/recovery_state.py: the rules of its steps.
-- `encode` stands for the fingerprint of an event.
use locus_v.Prelude.{ℕ, suc, not, ◌&&◌, ◌||◌, Option, none, if◌then◌else◌}
use locus_v.Prelude.Eq.{◌==◌, nat_eq, list_eq, option_eq}
use locus_v.Prelude.Lists.{get_elem?}
use locus_v.Prelude.Results.{ok, ◌>>=◌, ◌>>◌, raise_if, or_raise}
use locus_v.Contracts.Values.{
  Text, Bytes, Checked, already_complete, phase_out_of_order, lacks_binding, binding_changed,
  index_error, operation_binding_changed, identifier, is_none,
}
use locus_v.ClientMachine.Store.{Rules, Machine, begin, advance}
use locus_v.Recovery.State.{
  RecoveryPhase, bootstrap, descriptor_verification, complete, phase_order, place, phase_eq,
  RecoveryClientState, client_eq, check_client, RecoveryTransitionEvent,
}

-- PHASE_ORDER[PHASE_ORDER.index(phase) + 1]
abbrev pub next_phase : RecoveryPhase → Option RecoveryPhase
next_phase phase = get_elem? phase_order (suc (place phase))

-- RecoveryClientState(...), which checks itself.
abbrev pub build : RecoveryClientState → Checked RecoveryClientState
build s = do check_client s; ok s

unfoldable pub bind_epoch :
    RecoveryClientState → RecoveryTransitionEvent → Checked (Option Text × Option ℕ)
bind_epoch current event =
    if current.phase == descriptor_verification
    then (do raise_if (is_none event.backup_id) lacks_binding; ok (event.backup_id, event.epoch))
    else (do
      raise_if
          (not (is_none event.backup_id)
            && (not (event.backup_id == current.backup_id) || not (event.epoch == current.epoch)))
          binding_changed
      ok (current.backup_id, current.epoch))

unfoldable pub recover : RecoveryClientState → RecoveryTransitionEvent → Checked RecoveryClientState
unfolding bind_epoch
recover current event = do
  raise_if (current.phase == complete) already_complete
  raise_if (not (event.completed_phase == current.phase)) phase_out_of_order
  binding ← bind_epoch current event
  following ← or_raise (next_phase current.phase) index_error
  build (record {
    operation_id = current.operation_id;
    phase = following;
    recovery_handle = current.recovery_handle;
    backup_id = binding.0;
    epoch = binding.1;
  })

-- The state that `begin` builds.
abbrev pub first_state : Text → Text → RecoveryClientState
first_state recovery_handle operation_id = record {
  operation_id = operation_id;
  phase = bootstrap;
  recovery_handle = recovery_handle;
  backup_id = none;
  epoch = none;
}

abbrev pub recovery_rules :
    (RecoveryTransitionEvent → Bytes) → Rules RecoveryClientState RecoveryTransitionEvent Text
recovery_rules encode = record {
  operation_id = λ s. s.operation_id;
  event_id = λ e. e.event_id;
  fingerprint = encode;
  admits = λ recovery_handle operation_id. (do
    _ ← identifier operation_id
    _ ← identifier recovery_handle
    ok tt);
  rejoins = λ recovery_handle s.
      raise_if (not (s.recovery_handle == recovery_handle)) operation_binding_changed;
  starts = λ recovery_handle operation_id. build (first_state recovery_handle operation_id);
  step = recover;
}

unfoldable pub begin_recovery :
    (RecoveryTransitionEvent → Bytes)
    → Machine RecoveryClientState
    → Text
    → Text
    → Checked (RecoveryClientState × Machine RecoveryClientState)
unfolding begin
begin_recovery encode m operation_id recovery_handle =
    begin (recovery_rules encode) m recovery_handle operation_id

unfoldable pub advance_recovery :
    (RecoveryTransitionEvent → Bytes)
    → Machine RecoveryClientState
    → RecoveryClientState
    → RecoveryTransitionEvent
    → Checked (RecoveryClientState × Machine RecoveryClientState)
unfolding advance
advance_recovery encode m s event = advance (recovery_rules encode) m s event
