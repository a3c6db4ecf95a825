-- ===== src/Recovery/Fingerprint.antt =====
-- `fingerprint` of RecoveryTransitionEvent of prototype_final/locus/recovery_state.py, the bytes by which the machine
-- knows an event again, and the `value` of each phase in contracts.py.
use locus_v.Prelude.{ℕ, ◌≡◌, not, refl, sym, ap, ◌∙◌, if◌then◌else◌}
use locus_v.Prelude.Eq.{◌==◌, nat_eq, list_eq, bool_eq}
use locus_v.Prelude.Results.{ok, bind-ok, raise_if-ok}
use locus_v.Contracts.Values.{Bytes, identifier, is_none, incomplete_binding, complete_is_no_event}
use locus_v.Certificates.Values.{Text, string, codes}
use locus_v.Codec.{Codec, IsCodec, encode, event_object, IsFlat, flat_string, IsVisible}
use locus_v.Codec.Events.{
  text_value, integer_value, text_value_injective, integer_value_injective, string_injective,
  identifier-IsVisible, integer_value-IsFlat, check_binding-IsFlat, encode_faithful,
}
use locus_v.Recovery.State.{
  RecoveryPhase, bootstrap, descriptor_verification, current_state, backup_retrieval, policy,
  threshold_selection, authorization, suite_recovery, decryption, key_identity, successor, complete,
  place, place_injective, phase_eq, RecoveryTransitionEvent, check_event,
}

abbrev pub phase_value : RecoveryPhase → Text
phase_value bootstrap = codes "bootstrap"
phase_value descriptor_verification = codes "descriptor_verification"
phase_value current_state = codes "current_state"
phase_value backup_retrieval = codes "backup_retrieval"
phase_value policy = codes "policy"
phase_value threshold_selection = codes "threshold_selection"
phase_value authorization = codes "authorization"
phase_value suite_recovery = codes "suite_recovery"
phase_value decryption = codes "decryption"
phase_value key_identity = codes "key_identity"
phase_value successor = codes "successor"
phase_value complete = codes "complete"

unfoldable pub fingerprint : Codec → RecoveryTransitionEvent → Bytes
fingerprint codec e = encode codec (
    event_object (text_value e.backup_id) (string (phase_value e.completed_phase))
      (integer_value e.epoch) (string e.event_id))

-- The place of the phase that a value names.
abbrev value_place : Text → ℕ
value_place t =
    if t == codes "bootstrap"
    then 0
    else if t == codes "descriptor_verification"
    then 1
    else if t == codes "current_state"
    then 2
    else if t == codes "backup_retrieval"
    then 3
    else if t == codes "policy"
    then 4
    else if t == codes "threshold_selection"
    then 5
    else if t == codes "authorization"
    then 6
    else if t == codes "suite_recovery"
    then 7
    else if t == codes "decryption"
    then 8
    else if t == codes "key_identity"
    then 9
    else if t == codes "successor"
    then 10
    else 11

value_place-phase_value : (p : RecoveryPhase) → value_place (phase_value p) ≡ place p
value_place-phase_value bootstrap = refl
value_place-phase_value descriptor_verification = refl
value_place-phase_value current_state = refl
value_place-phase_value backup_retrieval = refl
value_place-phase_value policy = refl
value_place-phase_value threshold_selection = refl
value_place-phase_value authorization = refl
value_place-phase_value suite_recovery = refl
value_place-phase_value decryption = refl
value_place-phase_value key_identity = refl
value_place-phase_value successor = refl
value_place-phase_value complete = refl

phase_value_injective : (p q : RecoveryPhase) → phase_value p ≡ phase_value q → p ≡ q
phase_value_injective p q h =
    place_injective p q
      (sym (value_place-phase_value p) ∙ ap value_place h ∙ value_place-phase_value q)

phase_value-IsVisible : (p : RecoveryPhase) → IsVisible (phase_value p)
phase_value-IsVisible bootstrap = refl
phase_value-IsVisible descriptor_verification = refl
phase_value-IsVisible current_state = refl
phase_value-IsVisible backup_retrieval = refl
phase_value-IsVisible policy = refl
phase_value-IsVisible threshold_selection = refl
phase_value-IsVisible authorization = refl
phase_value-IsVisible suite_recovery = refl
phase_value-IsVisible decryption = refl
phase_value-IsVisible key_identity = refl
phase_value-IsVisible successor = refl
phase_value-IsVisible complete = refl

check_event-IsFlat :
    (e : RecoveryTransitionEvent)
    → check_event e ≡ ok tt
    → IsFlat (text_value e.backup_id)
      × IsFlat (string (phase_value e.completed_phase))
      × IsFlat (integer_value e.epoch)
      × IsFlat (string e.event_id)
unfolding check_event
check_event-IsFlat e h =
    let (u, named, h1) = bind-ok (identifier e.event_id) _ _ h in
    let (_, h2) = raise_if-ok (e.completed_phase == complete) complete_is_no_event _ _ h1 in
    let (_, h3) =
      raise_if-ok (not (is_none e.backup_id == is_none e.epoch)) incomplete_binding _ _ h2 in
    (
      check_binding-IsFlat e.backup_id e.epoch h3,
      flat_string (phase_value e.completed_phase) (phase_value-IsVisible e.completed_phase),
      integer_value-IsFlat e.epoch,
      flat_string e.event_id (identifier-IsVisible e.event_id u named),
    )

pub fingerprint_injective :
    (codec : Codec)
    → IsCodec codec
    → (e f : RecoveryTransitionEvent) → check_event e ≡ ok tt
    → check_event f ≡ ok tt
    → fingerprint codec e ≡ fingerprint codec f
    → e ≡ f
unfolding fingerprint
fingerprint_injective codec codes_well e f checked_e checked_f h =
    let (b, p, n, i) =
      encode_faithful codec codes_well _ _ _ _ _ _ _ _ (check_event-IsFlat e checked_e)
        (check_event-IsFlat f checked_f) h in
    let ids : e.event_id ≡ f.event_id = string_injective e.event_id f.event_id i in
    let phases : e.completed_phase ≡ f.completed_phase =
      phase_value_injective e.completed_phase f.completed_phase (string_injective _ _ p) in
    let backups : e.backup_id ≡ f.backup_id = text_value_injective e.backup_id f.backup_id b in
    let epochs : e.epoch ≡ f.epoch = integer_value_injective e.epoch f.epoch n in
    λ k. record {
      event_id = ids k;
      completed_phase = phases k;
      backup_id = backups k;
      epoch = epochs k;
    }
