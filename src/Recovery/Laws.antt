-- ===== src/Recovery/Laws.antt =====
-- The steps of the recovery keep the states good and go forward.
use locus_v.Prelude.{
  ℕ, Bool, false, not, ◌&&◌, ◌||◌, Option, none, some, ◌≡◌, ◌≢◌, ◌⊎◌, inl, inr, arith, refl, sym,
  ap, ◌∙◌, subst, Bool-cases,
}
use locus_v.Prelude.Eq.{◌==◌, nat_eq, bool_eq, list_eq, option_eq, eq_of_beq}
use locus_v.Prelude.Results.{ok, ◌>>◌, raise_if, raise_if-ok}
use locus_v.Contracts.Values.{
  Text, lacks_binding, binding_changed, is_none, check_binding, IsIdentifier,
}
use locus_v.Contracts.Accepts.{check_binding-some}
use locus_v.Recovery.State.{
  descriptor_verification, place, phase_eq, RecoveryClientState, RecoveryTransitionEvent,
}
use locus_v.Recovery.Transitions.{build, bind_epoch, recover, first_state}
use locus_v.Recovery.Rules.{
  Binding, unbound, bound, IsGood, Before, build-ok, Recovered, recover-Recovered,
}

-- The verification of the descriptor binds the event's epoch; every other phase keeps the state's.
pub bind_epoch_cases :
    (s : RecoveryClientState) (e : RecoveryTransitionEvent) (c : Option Text × Option ℕ)
    → bind_epoch s e ≡ ok c
    → ((place s.phase ≡ 1) × ((b : Text) × (e.backup_id ≡ some b)) × (c ≡ (e.backup_id, e.epoch)))
      ⊎ ((place s.phase ≢ 1) × (c ≡ (s.backup_id, s.epoch)))
unfolding bind_epoch
bind_epoch_cases s e c h = elim (Bool-cases (s.phase == descriptor_verification)) [
  | inl q ↦
      let h1 : (raise_if (is_none e.backup_id) lacks_binding >> ok (e.backup_id, e.epoch)) ≡ ok c =
        ground (arith, q, h) in
      let (given, rest) = raise_if-ok (is_none e.backup_id) _ _ _ h1 in
      inl (
        ap place (eq_of_beq s.phase descriptor_verification q),
        named e.backup_id given,
        ground (arith, rest),
      )
  | inr q ↦
      let changes : Bool =
        not (is_none e.backup_id)
        && (not (e.backup_id == s.backup_id) || not (e.epoch == s.epoch)) in
      let h1 : (raise_if changes binding_changed >> ok (s.backup_id, s.epoch)) ≡ ok c =
        ground (arith, q, h) in
      let (_, rest) = raise_if-ok changes _ _ _ h1 in
      inr (λ p. ground (arith, q, (nat_eq.same_iff (place s.phase) 1).1 p), ground (arith, rest))
]
  where
    named : (o : Option Text) → is_none o ≡ false → (b : Text) × (o ≡ some b)
    named none h = absurd (cc)
    named (some b) h = (b, refl)

-- The binding after a step, from the binding before it.
moved_binding :
    (s t : RecoveryClientState) (e : RecoveryTransitionEvent) (x : Recovered s t e)
    → Binding s
    → ((place s.phase ≡ 1)
        × ((b : Text) × (e.backup_id ≡ some b))
        × (x.binding ≡ (e.backup_id, e.epoch)))
      ⊎ ((place s.phase ≢ 1) × (x.binding ≡ (s.backup_id, s.epoch)))
    → Binding t × Before s t
moved_binding s t e x (unbound early no_backup no_epoch) (inl (at, (b, given), same)) =
    let backup : x.binding.0 ≡ some b = ap (λ p. p.0) same ∙ given in
    let (named, (n, epoch, positive)) =
      check_binding-some b x.binding.1
        (subst (λ o. check_binding o x.binding.1 ≡ ok tt) backup x.checked) in
    (
      bound b n (omega (arith, x.onward, at)) (x.same_backup ∙ backup) (x.same_epoch ∙ epoch) named
          positive,
      record {
        forward = omega (arith, x.onward);
        same_handle = x.kept_handle;
        fixed = λ c h. absurd (ground (arith, h, no_backup));
      },
    )
moved_binding s t e x (bound b n late backup epoch named positive) (inl (at, _, _)) =
    absurd (omega (arith, at, late))
moved_binding s t e x (unbound early no_backup no_epoch) (inr (elsewhere, same)) =
    let kept_backup : t.backup_id ≡ s.backup_id = x.same_backup ∙ ap (λ p. p.0) same in
    let kept_epoch : t.epoch ≡ s.epoch = x.same_epoch ∙ ap (λ p. p.1) same in
    (
      unbound (omega (arith, x.onward, early, elsewhere)) (kept_backup ∙ no_backup)
          (kept_epoch ∙ no_epoch),
      record {
        forward = omega (arith, x.onward);
        same_handle = x.kept_handle;
        fixed = λ c h. (kept_backup, kept_epoch);
      },
    )
moved_binding s t e x (bound b n late backup epoch named positive) (inr (elsewhere, same)) =
    let kept_backup : t.backup_id ≡ s.backup_id = x.same_backup ∙ ap (λ p. p.0) same in
    let kept_epoch : t.epoch ≡ s.epoch = x.same_epoch ∙ ap (λ p. p.1) same in
    (
      bound b n (omega (arith, x.onward, late)) (kept_backup ∙ backup) (kept_epoch ∙ epoch) named
          positive,
      record {
        forward = omega (arith, x.onward);
        same_handle = x.kept_handle;
        fixed = λ c h. (kept_backup, kept_epoch);
      },
    )

pub recover-IsGood :
    (s t : RecoveryClientState) (e : RecoveryTransitionEvent)
    → IsGood s
    → recover s e ≡ ok t
    → IsGood t × Before s t × (t.operation_id ≡ s.operation_id)
recover-IsGood s t e good h =
    let x = recover-Recovered s t e h in
    let (binding, before) =
      moved_binding s t e x good.binding (bind_epoch_cases s e x.binding x.bound_by) in
    (
      record {
        named = subst IsIdentifier (sym x.same_operation) x.named;
        handle = subst IsIdentifier (sym x.kept_handle) x.handle;
        binding = binding;
      },
      before,
      x.same_operation,
    )

pub first_state-IsGood :
    (handle o : Text) (s : RecoveryClientState)
    → build (first_state handle o) ≡ ok s
    → IsGood s × (s.operation_id ≡ o)
first_state-IsGood handle o s h =
    let (same, named, handled, _) = build-ok (first_state handle o) s h in
    subst (λ x. IsGood x × (x.operation_id ≡ o)) same
      (record { named = named; handle = handled; binding = unbound (omega arith) refl refl }, refl)

pub Before-refl : (s : RecoveryClientState) → Before s s
Before-refl s = record { forward = omega arith; same_handle = refl; fixed = λ b h. (refl, refl) }

pub Before-trans : (s t u : RecoveryClientState) → Before s t → Before t u → Before s u
Before-trans s t u p q = record {
  forward = omega (arith, p.forward, q.forward);
  same_handle = q.same_handle ∙ p.same_handle;
  fixed = λ b h.
      let (backup, epoch) = p.fixed b h in
      let (backup2, epoch2) = q.fixed b (backup ∙ h) in (backup2 ∙ backup, epoch2 ∙ epoch);
}
