-- ===== src/Enrollment/Transitions.antt =====
-- StableEnrollmentStateMachine of prototype_final/locus/enrollment_state.py: the rules of its
-- steps. `encode` stands for the fingerprint of an event.
use locus_v.Prelude.{ℕ, suc, not, ◌&&◌, ◌||◌, Option, none, if◌then◌else◌}
use locus_v.Prelude.Eq.{◌==◌, nat_eq, list_eq, option_eq}
use locus_v.Prelude.Lists.{get_elem?}
use locus_v.Prelude.Results.{ok, ◌>>=◌, ◌>>◌, raise_if, or_raise}
use locus_v.Contracts.Values.{
  Text, Bytes, Checked, already_complete, phase_out_of_order, lacks_binding, binding_changed,
  index_error, identifier, is_none,
}
use locus_v.ClientMachine.Store.{Rules, Machine, begin, advance}
use locus_v.Enrollment.State.{
  EnrollmentPhase, key, backup_publication, complete, phase_order, place, phase_eq,
  EnrollmentClientState, client_eq, check_client, EnrollmentTransitionEvent,
}

-- PHASE_ORDER[PHASE_ORDER.index(phase) + 1]
abbrev pub next_phase : EnrollmentPhase → Option EnrollmentPhase
next_phase phase = get_elem? phase_order (suc (place phase))

-- EnrollmentClientState(...), which checks itself.
abbrev pub build : EnrollmentClientState → Checked EnrollmentClientState
build s = do check_client s; ok s

unfoldable pub bind_epoch :
    EnrollmentClientState → EnrollmentTransitionEvent → Checked (Option Text × Option ℕ)
bind_epoch current event =
    if current.phase == backup_publication
    then (do raise_if (is_none event.backup_id) lacks_binding; ok (event.backup_id, event.epoch))
    else (do
      raise_if
          (not (is_none event.backup_id)
            && (not (event.backup_id == current.backup_id) || not (event.epoch == current.epoch)))
          binding_changed
      ok (current.backup_id, current.epoch))

unfoldable pub enroll :
    EnrollmentClientState → EnrollmentTransitionEvent → Checked EnrollmentClientState
unfolding bind_epoch
enroll current event = do
  raise_if (current.phase == complete) already_complete
  raise_if (not (event.completed_phase == current.phase)) phase_out_of_order
  following ← or_raise (next_phase current.phase) index_error
  binding ← bind_epoch current event
  build (record {
    operation_id = current.operation_id;
    phase = following;
    backup_id = binding.0;
    epoch = binding.1;
  })

-- The state that `begin` builds.
abbrev pub first_state : Text → EnrollmentClientState
first_state operation_id = record {
  operation_id = operation_id;
  phase = key;
  backup_id = none;
  epoch = none;
}

abbrev pub enrollment_rules :
    (EnrollmentTransitionEvent → Bytes)
    → Rules EnrollmentClientState EnrollmentTransitionEvent (Unit {0})
enrollment_rules encode = record {
  operation_id = λ s. s.operation_id;
  event_id = λ e. e.event_id;
  fingerprint = encode;
  admits = λ _ operation_id. (do _ ← identifier operation_id; ok tt);
  rejoins = λ _ s. ok tt;
  starts = λ _ operation_id. build (first_state operation_id);
  step = enroll;
}

unfoldable pub begin_enrollment :
    (EnrollmentTransitionEvent → Bytes)
    → Machine EnrollmentClientState
    → Text
    → Checked (EnrollmentClientState × Machine EnrollmentClientState)
unfolding begin
begin_enrollment encode m operation_id = begin (enrollment_rules encode) m tt operation_id

unfoldable pub advance_enrollment :
    (EnrollmentTransitionEvent → Bytes)
    → Machine EnrollmentClientState
    → EnrollmentClientState
    → EnrollmentTransitionEvent
    → Checked (EnrollmentClientState × Machine EnrollmentClientState)
unfolding advance
advance_enrollment encode m s event = advance (enrollment_rules encode) m s event
