-- ===== src/Recovery/Progress.antt =====
-- A step that prototype_final/locus/recovery_state.py does not refuse.
use locus_v.Prelude.{
  ℕ, ◌+◌, true, false, Option, none, some, List, ◌≡◌, ◌≢◌, inl, inr, arith, refl, ap, ◌∙◌,
  Bool-cases,
}
use locus_v.Prelude.Eq.{
  ◌==◌, nat_eq, bool_eq, list_eq, option_eq, pair_eq, beq_self, eq_of_beq, option_beq_iff,
}
use locus_v.Prelude.Results.{ok}
use locus_v.Contracts.Values.{
  Text, Bytes, is_none, check_binding, IsIdentifier, IsPositive, max_epoch,
}
use locus_v.Contracts.Accepts.{IsIdentifier-identifier, some-check_binding}
use locus_v.ClientMachine.Store.{
  get, get-put, Machine, empty_machine, Command, advance, answer, apply,
}
use locus_v.ClientMachine.Runs.{stepped}
use locus_v.Recovery.State.{
  RecoveryPhase, bootstrap, descriptor_verification, current_state, backup_retrieval, policy,
  threshold_selection, authorization, suite_recovery, decryption, key_identity, successor, complete,
  place, phase_eq, RecoveryClientState, client_eq, check_client, RecoveryTransitionEvent,
}
use locus_v.Recovery.Transitions.{next_phase, bind_epoch, recover, recovery_rules, advance_recovery}
use locus_v.Recovery.Rules.{Binding, unbound, bound, IsGood, recover-Recovered}
use locus_v.Recovery.Calls.{run_recovery, recovery_bound}

-- What an event may say of the epoch: the verification names a valid one, and another phase names
-- none or the state's own.
pub data Offers (s : RecoveryClientState) (e : RecoveryTransitionEvent) : Type 0 where
  verifies :
      (b : Text) (n : ℕ)
      → place s.phase ≡ 1
      → e.backup_id ≡ some b
      → e.epoch ≡ some n
      → IsIdentifier b
      → IsPositive max_epoch n
      → Offers s e
  silent : place s.phase ≢ 1 → e.backup_id ≡ none → Offers s e
  agrees : place s.phase ≢ 1 → e.backup_id ≡ s.backup_id → e.epoch ≡ s.epoch → Offers s e

following : (p : RecoveryPhase) → p ≢ complete → (q : RecoveryPhase) × (next_phase p ≡ some q)
following bootstrap h = (descriptor_verification, refl)
following descriptor_verification h = (current_state, refl)
following current_state h = (backup_retrieval, refl)
following backup_retrieval h = (policy, refl)
following policy h = (threshold_selection, refl)
following threshold_selection h = (authorization, refl)
following authorization h = (suite_recovery, refl)
following suite_recovery h = (decryption, refl)
following decryption h = (key_identity, refl)
following key_identity h = (successor, refl)
following successor h = (complete, refl)
following complete h = absurd (h refl)

-- A binding that a state may be built with.
abbrev Fits : Option Text × Option ℕ → Type 0
Fits c = ((is_none c.0 == is_none c.1) ≡ true) × (check_binding c.0 c.1 ≡ ok tt)

state-Fits : (s : RecoveryClientState) → Binding s → Fits (s.backup_id, s.epoch)
unfolding check_binding
state-Fits s (unbound early backup epoch) =
    (ground (arith, backup, epoch), ground (arith, backup, epoch))
state-Fits s (bound b n late backup epoch named positive) = (
  ground (arith, backup, epoch),
  ground (arith, backup, epoch, some-check_binding b n named positive),
)

bind_epoch-Fits :
    (s : RecoveryClientState) (e : RecoveryTransitionEvent)
    → Binding s
    → Offers s e
    → (c : Option Text × Option ℕ) × (bind_epoch s e ≡ ok c) × Fits c
unfolding bind_epoch
bind_epoch-Fits s e binding (verifies b n at backup epoch named positive) = (
  (some b, some n),
  ground (arith, at, backup, epoch),
  (refl, some-check_binding b n named positive),
)
bind_epoch-Fits s e binding (silent elsewhere backup) =
    ((s.backup_id, s.epoch), ground (arith, elsewhere, backup), state-Fits s binding)
bind_epoch-Fits s e binding (agrees elsewhere backup epoch) = (
  (s.backup_id, s.epoch),
  ground (
    arith,
    elsewhere,
    option_beq_iff e.backup_id s.backup_id,
    option_beq_iff e.epoch s.epoch,
    backup,
    epoch,
  ),
  state-Fits s binding,
)

differ : (p q : RecoveryPhase) → p ≢ q → (p == q) ≡ false
differ p q h = elim (Bool-cases (p == q)) [ inl e ↦ absurd (h (eq_of_beq p q e)) | inr e ↦ e ]

recover_progress :
    (s : RecoveryClientState) (e : RecoveryTransitionEvent)
    → IsGood s
    → s.phase ≢ complete
    → e.completed_phase ≡ s.phase
    → Offers s e
    → (t : RecoveryClientState) × (recover s e ≡ ok t)
unfolding recover check_client
recover_progress s e good open_phase same offers =
    let (q, found) = following s.phase open_phase in
    let unfinished : (s.phase == complete) ≡ false = differ s.phase complete open_phase in
    let (c, bound_by, (paired, checked)) = bind_epoch-Fits s e good.binding offers in
    (
      record {
        operation_id = s.operation_id;
        phase = q;
        recovery_handle = s.recovery_handle;
        backup_id = c.0;
        epoch = c.1;
      },
      ground (
        arith,
        unfinished,
        found,
        bound_by,
        paired,
        checked,
        (phase_eq.same_iff e.completed_phase s.phase).1 same,
        IsIdentifier-identifier s.operation_id good.named,
        IsIdentifier-identifier s.recovery_handle good.handle,
      ),
    )

module _ (encode : RecoveryTransitionEvent → Bytes) where
  apply_progress :
      (m : Machine RecoveryClientState) (s t : RecoveryClientState)
      (event : RecoveryTransitionEvent)
      → get m.states s.operation_id ≡ some s
      → recover s event ≡ ok t
      → apply (recovery_rules encode) m s event
        ≡ ok (t, stepped (recovery_rules encode) m s event t)
  apply_progress m s t event stored moves = ground (arith, stored, moves, beq_self s)

  -- After any calls of the recovery machine, a stored state that is not complete moves to the next
  -- phase by every event that has a new identifier, names the state's phase and offers an
  -- acceptable epoch, and the machine then stores the new state.
  pub recovery_progress :
      (cs : List (Command RecoveryClientState RecoveryTransitionEvent Text))
      (s : RecoveryClientState) (event : RecoveryTransitionEvent)
      → get (run_recovery encode empty_machine cs).states s.operation_id ≡ some s
      → get (run_recovery encode empty_machine cs).events (s.operation_id, event.event_id) ≡ none
      → s.phase ≢ complete
      → event.completed_phase ≡ s.phase
      → Offers s event
      → (t : RecoveryClientState) × (n : Machine RecoveryClientState) × (advance_recovery encode
            (run_recovery encode empty_machine cs)
            s
            event
          ≡ ok (t, n))
        × (place t.phase ≡ place s.phase + 1)
        × (get n.states s.operation_id ≡ some t)
  unfolding advance_recovery advance
  recovery_progress cs s event stored fresh open_phase same offers =
      let m = run_recovery encode empty_machine cs in
      let (good, _) = recovery_bound encode cs s.operation_id s stored in
      let (t, moves) = recover_progress s event good open_phase same offers in
      (
        t,
        stepped (recovery_rules encode) m s event t,
        ap (answer (recovery_rules encode) m s event) fresh
            ∙ apply_progress m s t event stored moves,
        (recover-Recovered s t event moves).onward,
        get-put m.states s.operation_id t,
      )
