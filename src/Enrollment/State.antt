-- ===== src/Enrollment/State.antt =====
-- EnrollmentPhase and EnrollmentClientState of prototype_final/locus/contracts.py,
-- EnrollmentTransitionEvent and PHASE_ORDER of prototype_final/locus/enrollment_state.py.
use locus_v.Prelude.{
  ℕ, Bool, true, not, ◌&&◌, Option, some, List, [], ◌∷◌, ◌≡◌, ◌↔◌, refl, sym, ap, ◌∙◌, arith,
}
use locus_v.Prelude.Eq.{Eq, ◌==◌, nat_eq, bool_eq, list_eq, option_eq, list_beq_iff, option_beq_iff}
use locus_v.Prelude.Lists.{get_elem?}
use locus_v.Prelude.Results.{◌>>=◌, ◌>>◌, raise_if}
use locus_v.Contracts.Values.{
  Text, Checked, incomplete_binding, complete_is_no_event, identifier, is_none, check_binding,
}

pub data EnrollmentPhase : Type 0 where
  key policy suite_setup key_wrap backup_publication : EnrollmentPhase
  party_provisioning descriptor_publication receipt disposal complete : EnrollmentPhase

abbrev pub phase_order : List EnrollmentPhase
phase_order =
    key ∷ policy ∷ suite_setup ∷ key_wrap ∷ backup_publication ∷ party_provisioning
    ∷ descriptor_publication ∷ receipt ∷ disposal ∷ complete ∷ []

-- The place of a phase, by which `is` tells phases apart.
abbrev pub place : EnrollmentPhase → ℕ
place key = 0
place policy = 1
place suite_setup = 2
place key_wrap = 3
place backup_publication = 4
place party_provisioning = 5
place descriptor_publication = 6
place receipt = 7
place disposal = 8
place complete = 9

get_elem?-place : (p : EnrollmentPhase) → get_elem? phase_order (place p) ≡ some p
get_elem?-place key = refl
get_elem?-place policy = refl
get_elem?-place suite_setup = refl
get_elem?-place key_wrap = refl
get_elem?-place backup_publication = refl
get_elem?-place party_provisioning = refl
get_elem?-place descriptor_publication = refl
get_elem?-place receipt = refl
get_elem?-place disposal = refl
get_elem?-place complete = refl

some_injective : {A : Type 0} (a b : A) → some a ≡ some b → a ≡ b
some_injective a b h = cc

pub place_injective : (p q : EnrollmentPhase) → place p ≡ place q → p ≡ q
place_injective p q h =
    some_injective p q (sym (get_elem?-place p) ∙ ap (get_elem? phase_order) h ∙ get_elem?-place q)

abbrev pub phase_beq : EnrollmentPhase → EnrollmentPhase → Bool
phase_beq p q = place p == place q

pub phase_beq_iff : (p q : EnrollmentPhase) → (phase_beq p q ≡ true) ↔ (p ≡ q)
phase_beq_iff p q = (
  λ h. place_injective p q ((nat_eq.same_iff _ _).0 h),
  λ h. (nat_eq.same_iff _ _).1 (ap place h),
)

instance abbrev pub phase_eq : Eq EnrollmentPhase
phase_eq = record { same = phase_beq; same_iff = phase_beq_iff }

pub record EnrollmentClientState : Type 0 where
  pub operation_id : Text
  pub phase : EnrollmentPhase
  pub backup_id : Option Text
  pub epoch : Option ℕ

-- The equality that `@dataclass(frozen=True)` generates.
abbrev pub client_beq : EnrollmentClientState → EnrollmentClientState → Bool
client_beq s t =
    s.operation_id == t.operation_id
    && s.phase == t.phase
    && s.backup_id == t.backup_id
    && s.epoch == t.epoch

pub client_beq_iff : (s t : EnrollmentClientState) → (client_beq s t ≡ true) ↔ (s ≡ t)
client_beq_iff s t = ground (
  arith,
  list_beq_iff s.operation_id t.operation_id,
  phase_beq_iff s.phase t.phase,
  option_beq_iff s.backup_id t.backup_id,
  option_beq_iff s.epoch t.epoch,
)

instance abbrev pub client_eq : Eq EnrollmentClientState
client_eq = record { same = client_beq; same_iff = client_beq_iff }

-- __post_init__ of EnrollmentClientState
unfoldable pub check_client : EnrollmentClientState → Checked (Unit {0})
check_client s = do
  _ ← identifier s.operation_id
  raise_if (not (is_none s.backup_id == is_none s.epoch)) incomplete_binding
  check_binding s.backup_id s.epoch

pub record EnrollmentTransitionEvent : Type 0 where
  pub event_id : Text
  pub completed_phase : EnrollmentPhase
  pub backup_id : Option Text
  pub epoch : Option ℕ

-- __post_init__ of EnrollmentTransitionEvent
unfoldable pub check_event : EnrollmentTransitionEvent → Checked (Unit {0})
check_event e = do
  _ ← identifier e.event_id
  raise_if (e.completed_phase == complete) complete_is_no_event
  raise_if (not (is_none e.backup_id == is_none e.epoch)) incomplete_binding
  check_binding e.backup_id e.epoch
