-- ===== src/Enrollment/Progress.antt =====
-- A step that prototype_final/locus/enrollment_state.py does not refuse.
use locus_v.Prelude.{
  ℕ, ◌+◌, true, false, Option, none, some, List, ◌≡◌, ◌≢◌, inl, inr, arith, refl, ap, ◌∙◌,
  Bool-cases,
}
use locus_v.Prelude.Eq.{
  ◌==◌, nat_eq, bool_eq, list_eq, option_eq, pair_eq, beq_self, eq_of_beq, option_beq_iff,
}
use locus_v.Prelude.Results.{ok}
use locus_v.Contracts.Values.{
  Text, Bytes, is_none, check_binding, IsIdentifier, IsPositive, max_epoch,
}
use locus_v.Contracts.Accepts.{IsIdentifier-identifier, some-check_binding}
use locus_v.ClientMachine.Store.{
  get, get-put, Machine, empty_machine, Command, advance, answer, apply,
}
use locus_v.ClientMachine.Runs.{stepped}
use locus_v.Enrollment.State.{
  EnrollmentPhase, key, policy, suite_setup, key_wrap, backup_publication, party_provisioning,
  descriptor_publication, receipt, disposal, complete, place, phase_eq, EnrollmentClientState,
  client_eq, check_client, EnrollmentTransitionEvent,
}
use locus_v.Enrollment.Transitions.{
  next_phase, bind_epoch, enroll, enrollment_rules, advance_enrollment,
}
use locus_v.Enrollment.Rules.{Binding, unbound, bound, IsGood, enroll-Enrolled}
use locus_v.Enrollment.Calls.{run_enrollment, enrollment_bound}

-- What an event may say of the epoch: the publication names a valid one, and another phase names
-- none or the state's own.
pub data Offers (s : EnrollmentClientState) (e : EnrollmentTransitionEvent) : Type 0 where
  publishes :
      (b : Text) (n : ℕ)
      → place s.phase ≡ 4
      → e.backup_id ≡ some b
      → e.epoch ≡ some n
      → IsIdentifier b
      → IsPositive max_epoch n
      → Offers s e
  silent : place s.phase ≢ 4 → e.backup_id ≡ none → Offers s e
  agrees : place s.phase ≢ 4 → e.backup_id ≡ s.backup_id → e.epoch ≡ s.epoch → Offers s e

following : (p : EnrollmentPhase) → p ≢ complete → (q : EnrollmentPhase) × (next_phase p ≡ some q)
following key h = (policy, refl)
following policy h = (suite_setup, refl)
following suite_setup h = (key_wrap, refl)
following key_wrap h = (backup_publication, refl)
following backup_publication h = (party_provisioning, refl)
following party_provisioning h = (descriptor_publication, refl)
following descriptor_publication h = (receipt, refl)
following receipt h = (disposal, refl)
following disposal h = (complete, refl)
following complete h = absurd (h refl)

-- A binding that a state may be built with.
abbrev Fits : Option Text × Option ℕ → Type 0
Fits c = ((is_none c.0 == is_none c.1) ≡ true) × (check_binding c.0 c.1 ≡ ok tt)

state-Fits : (s : EnrollmentClientState) → Binding s → Fits (s.backup_id, s.epoch)
unfolding check_binding
state-Fits s (unbound early backup epoch) =
    (ground (arith, backup, epoch), ground (arith, backup, epoch))
state-Fits s (bound b n late backup epoch named positive) = (
  ground (arith, backup, epoch),
  ground (arith, backup, epoch, some-check_binding b n named positive),
)

bind_epoch-Fits :
    (s : EnrollmentClientState) (e : EnrollmentTransitionEvent)
    → Binding s
    → Offers s e
    → (c : Option Text × Option ℕ) × (bind_epoch s e ≡ ok c) × Fits c
unfolding bind_epoch
bind_epoch-Fits s e binding (publishes b n at backup epoch named positive) = (
  (some b, some n),
  ground (arith, at, backup, epoch),
  (refl, some-check_binding b n named positive),
)
bind_epoch-Fits s e binding (silent elsewhere backup) =
    ((s.backup_id, s.epoch), ground (arith, elsewhere, backup), state-Fits s binding)
bind_epoch-Fits s e binding (agrees elsewhere backup epoch) = (
  (s.backup_id, s.epoch),
  ground (
    arith,
    elsewhere,
    option_beq_iff e.backup_id s.backup_id,
    option_beq_iff e.epoch s.epoch,
    backup,
    epoch,
  ),
  state-Fits s binding,
)

differ : (p q : EnrollmentPhase) → p ≢ q → (p == q) ≡ false
differ p q h = elim (Bool-cases (p == q)) [ inl e ↦ absurd (h (eq_of_beq p q e)) | inr e ↦ e ]

enroll_progress :
    (s : EnrollmentClientState) (e : EnrollmentTransitionEvent)
    → IsGood s
    → s.phase ≢ complete
    → e.completed_phase ≡ s.phase
    → Offers s e
    → (t : EnrollmentClientState) × (enroll s e ≡ ok t)
unfolding enroll check_client
enroll_progress s e good open_phase same offers =
    let (q, found) = following s.phase open_phase in
    let unfinished : (s.phase == complete) ≡ false = differ s.phase complete open_phase in
    let (c, bound_by, (paired, checked)) = bind_epoch-Fits s e good.binding offers in
    (
      record { operation_id = s.operation_id; phase = q; backup_id = c.0; epoch = c.1 },
      ground (
        arith,
        unfinished,
        found,
        bound_by,
        paired,
        checked,
        (phase_eq.same_iff e.completed_phase s.phase).1 same,
        IsIdentifier-identifier s.operation_id good.named,
      ),
    )

module _ (encode : EnrollmentTransitionEvent → Bytes) where
  apply_progress :
      (m : Machine EnrollmentClientState) (s t : EnrollmentClientState)
      (event : EnrollmentTransitionEvent)
      → get m.states s.operation_id ≡ some s
      → enroll s event ≡ ok t
      → apply (enrollment_rules encode) m s event
        ≡ ok (t, stepped (enrollment_rules encode) m s event t)
  apply_progress m s t event stored moves = ground (arith, stored, moves, beq_self s)

  -- After any calls of the enrollment machine, a stored state that is not complete moves to the
  -- next phase by every event that has a new identifier, names the state's phase and offers an
  -- acceptable epoch, and the machine then stores the new state.
  pub enrollment_progress :
      (cs : List (Command EnrollmentClientState EnrollmentTransitionEvent (Unit {0})))
      (s : EnrollmentClientState) (event : EnrollmentTransitionEvent)
      → get (run_enrollment encode empty_machine cs).states s.operation_id ≡ some s
      → get (run_enrollment encode empty_machine cs).events (s.operation_id, event.event_id) ≡ none
      → s.phase ≢ complete
      → event.completed_phase ≡ s.phase
      → Offers s event
      → (t : EnrollmentClientState) × (n : Machine EnrollmentClientState) × (advance_enrollment
            encode
            (run_enrollment encode empty_machine cs)
            s
            event
          ≡ ok (t, n))
        × (place t.phase ≡ place s.phase + 1)
        × (get n.states s.operation_id ≡ some t)
  unfolding advance_enrollment advance
  enrollment_progress cs s event stored fresh open_phase same offers =
      let m = run_enrollment encode empty_machine cs in
      let (good, _) = enrollment_bound encode cs s.operation_id s stored in
      let (t, moves) = enroll_progress s event good open_phase same offers in
      (
        t,
        stepped (enrollment_rules encode) m s event t,
        ap (answer (enrollment_rules encode) m s event) fresh
            ∙ apply_progress m s t event stored moves,
        (enroll-Enrolled s t event moves).onward,
        get-put m.states s.operation_id t,
      )
