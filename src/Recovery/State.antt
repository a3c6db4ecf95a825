-- ===== src/Recovery/State.antt =====
-- RecoveryPhase and RecoveryClientState of prototype_final/locus/contracts.py,
-- RecoveryTransitionEvent and PHASE_ORDER of prototype_final/locus/recovery_state.py.
use locus_v.Prelude.{
  ℕ, Bool, true, not, ◌&&◌, Option, some, List, [], ◌∷◌, ◌≡◌, ◌↔◌, refl, sym, ap, ◌∙◌, arith,
}
use locus_v.Prelude.Eq.{Eq, ◌==◌, nat_eq, bool_eq, list_eq, option_eq, list_beq_iff, option_beq_iff}
use locus_v.Prelude.Lists.{get_elem?}
use locus_v.Prelude.Results.{◌>>=◌, ◌>>◌, raise_if}
use locus_v.Contracts.Values.{
  Text, Checked, incomplete_binding, complete_is_no_event, identifier, is_none, check_binding,
}

pub data RecoveryPhase : Type 0 where
  bootstrap descriptor_verification current_state backup_retrieval policy threshold_selection :
      RecoveryPhase
  authorization suite_recovery decryption key_identity successor complete : RecoveryPhase

abbrev pub phase_order : List RecoveryPhase
phase_order =
    bootstrap ∷ descriptor_verification ∷ current_state ∷ backup_retrieval ∷ policy
    ∷ threshold_selection ∷ authorization ∷ suite_recovery ∷ decryption ∷ key_identity ∷ successor
    ∷ complete ∷ []

-- The place of a phase, by which `is` tells phases apart.
abbrev pub place : RecoveryPhase → ℕ
place bootstrap = 0
place descriptor_verification = 1
place current_state = 2
place backup_retrieval = 3
place policy = 4
place threshold_selection = 5
place authorization = 6
place suite_recovery = 7
place decryption = 8
place key_identity = 9
place successor = 10
place complete = 11

get_elem?-place : (p : RecoveryPhase) → get_elem? phase_order (place p) ≡ some p
get_elem?-place bootstrap = refl
get_elem?-place descriptor_verification = refl
get_elem?-place current_state = refl
get_elem?-place backup_retrieval = refl
get_elem?-place policy = refl
get_elem?-place threshold_selection = refl
get_elem?-place authorization = refl
get_elem?-place suite_recovery = refl
get_elem?-place decryption = refl
get_elem?-place key_identity = refl
get_elem?-place successor = refl
get_elem?-place complete = refl

some_injective : {A : Type 0} (a b : A) → some a ≡ some b → a ≡ b
some_injective a b h = cc

pub place_injective : (p q : RecoveryPhase) → place p ≡ place q → p ≡ q
place_injective p q h =
    some_injective p q (sym (get_elem?-place p) ∙ ap (get_elem? phase_order) h ∙ get_elem?-place q)

abbrev pub phase_beq : RecoveryPhase → RecoveryPhase → Bool
phase_beq p q = place p == place q

pub phase_beq_iff : (p q : RecoveryPhase) → (phase_beq p q ≡ true) ↔ (p ≡ q)
phase_beq_iff p q = (
  λ h. place_injective p q ((nat_eq.same_iff _ _).0 h),
  λ h. (nat_eq.same_iff _ _).1 (ap place h),
)

instance abbrev pub phase_eq : Eq RecoveryPhase
phase_eq = record { same = phase_beq; same_iff = phase_beq_iff }

pub record RecoveryClientState : Type 0 where
  pub operation_id : Text
  pub phase : RecoveryPhase
  pub recovery_handle : Text
  pub backup_id : Option Text
  pub epoch : Option ℕ

-- The equality that `@dataclass(frozen=True)` generates.
abbrev pub client_beq : RecoveryClientState → RecoveryClientState → Bool
client_beq s t =
    s.operation_id == t.operation_id
    && s.phase == t.phase
    && s.recovery_handle == t.recovery_handle
    && s.backup_id == t.backup_id
    && s.epoch == t.epoch

pub client_beq_iff : (s t : RecoveryClientState) → (client_beq s t ≡ true) ↔ (s ≡ t)
client_beq_iff s t = ground (
  arith,
  list_beq_iff s.operation_id t.operation_id,
  phase_beq_iff s.phase t.phase,
  list_beq_iff s.recovery_handle t.recovery_handle,
  option_beq_iff s.backup_id t.backup_id,
  option_beq_iff s.epoch t.epoch,
)

instance abbrev pub client_eq : Eq RecoveryClientState
client_eq = record { same = client_beq; same_iff = client_beq_iff }

-- __post_init__ of RecoveryClientState
unfoldable pub check_client : RecoveryClientState → Checked (Unit {0})
check_client s = do
  _ ← identifier s.operation_id
  _ ← identifier s.recovery_handle
  raise_if (not (is_none s.backup_id == is_none s.epoch)) incomplete_binding
  check_binding s.backup_id s.epoch

pub record RecoveryTransitionEvent : Type 0 where
  pub event_id : Text
  pub completed_phase : RecoveryPhase
  pub backup_id : Option Text
  pub epoch : Option ℕ

-- __post_init__ of RecoveryTransitionEvent
unfoldable pub check_event : RecoveryTransitionEvent → Checked (Unit {0})
check_event e = do
  _ ← identifier e.event_id
  raise_if (e.completed_phase == complete) complete_is_no_event
  raise_if (not (is_none e.backup_id == is_none e.epoch)) incomplete_binding
  check_binding e.backup_id e.epoch
