-- ===== src/AttemptModel/State.antt =====
-- The states, the scenarios and the constants of prototype_final/locus/attempt_model.py.
-- A chain is a tuple of request identities, which are the two strings of `REQUESTS`.
use Prim.Native.String.{String}
use locus_v.Prelude.{ℕ, ◌-◌, ◌≡◌, ◌↔◌, Bool, true, false, ◌&&◌, Option, none, List, [], ◌∷◌, arith}
use locus_v.Prelude.Eq.{Eq, ◌==◌, nat_eq, bool_eq, list_eq, option_eq, list_beq_iff, option_beq_iff}
use locus_v.Prelude.Results.{Result}

pub data Request : Type 0 where
  request_a request_b : Request

abbrev pub Chain : Type 0
Chain = List Request

pub data ReconciliationMode : Type 0 where
  unreconciled quorum monotonic_anchor : ReconciliationMode

-- What the module raises: `AttemptModelError` by its message, and Python's `IndexError`.
pub data ModelError : Type 0 where
  invalid_party_phase lock_and_phase_disagree lock_does_not_extend index_error : ModelError

abbrev pub Checked : Type 0 → Type 0
Checked = Result ModelError

pub record PartyState : Type 0 where
  pub chain : Chain
  pub lock : Option Chain
  pub phase : ℕ
  pub ready : Bool
  pub active : Bool

-- `PartyState()`
abbrev pub genesis : PartyState
genesis = record { chain = []; lock = none; phase = 0; ready = true; active = true }

pub record ModelState : Type 0 where
  pub parties : List PartyState
  pub certificates : List Chain
  pub evaluated : List Request
  pub rollback_count : ℕ
  pub retired_finalized : Bool
  pub post_retirement_certificate : Bool
  pub post_retirement_evaluation : Bool
  pub anchor_chain : Chain
  pub anchor_retired : Bool

pub data Violation : Type 0 where
  authorization_after_final_retirement : Violation
  evaluation_after_final_retirement : Violation
  certificate_budget_or_retry_violation : Violation
  conflicting_authorization_certificates : Violation
  distinct_evaluation_budget_overrun : Violation
  uncertified_threshold_evaluation : Violation
  invalid_anchor_retirement : Violation
  anchor_without_certificate : Violation

pub record ModelScenario : Type 0 where
  pub scenario_id : String
  pub reconciliation : ReconciliationMode
  pub rollback_limit : ℕ
  pub max_depth : ℕ
  pub max_states : ℕ
  pub retired_snapshot_seed : Bool
  pub expected_violation : Option Violation

abbrev pub n_authorizers : ℕ
n_authorizers = 5

abbrev pub fault_bound : ℕ
fault_bound = 2

abbrev pub authorization_quorum : ℕ
authorization_quorum = 4

abbrev pub honest_authorizers : ℕ
honest_authorizers = n_authorizers - fault_bound

abbrev pub budget : ℕ
budget = 2

abbrev pub requests : List Request
requests = request_a ∷ request_b ∷ []

abbrev pub request_beq : Request → Request → Bool
request_beq request_a request_a = true
request_beq request_b request_b = true
request_beq _ _ = false

pub request_beq_iff : (a b : Request) → (request_beq a b ≡ true) ↔ (a ≡ b)
request_beq_iff a b = ground arith

instance abbrev pub request_eq : Eq Request
request_eq = record { same = request_beq; same_iff = request_beq_iff }

abbrev pub mode_beq : ReconciliationMode → ReconciliationMode → Bool
mode_beq unreconciled unreconciled = true
mode_beq quorum quorum = true
mode_beq monotonic_anchor monotonic_anchor = true
mode_beq _ _ = false

pub mode_beq_iff : (a b : ReconciliationMode) → (mode_beq a b ≡ true) ↔ (a ≡ b)
mode_beq_iff a b = ground arith

instance abbrev pub mode_eq : Eq ReconciliationMode
mode_eq = record { same = mode_beq; same_iff = mode_beq_iff }

-- The equality that `@dataclass(frozen=True)` generates.
abbrev pub party_beq : PartyState → PartyState → Bool
party_beq p q =
    p.chain == q.chain
    && p.lock == q.lock
    && p.phase == q.phase
    && p.ready == q.ready
    && p.active == q.active

pub party_beq_iff : (p q : PartyState) → (party_beq p q ≡ true) ↔ (p ≡ q)
party_beq_iff p q = ground (
  arith,
  list_beq_iff p.chain q.chain,
  option_beq_iff p.lock q.lock,
  nat_eq.same_iff p.phase q.phase,
  bool_eq.same_iff p.ready q.ready,
  bool_eq.same_iff p.active q.active,
)

instance abbrev pub party_eq : Eq PartyState
party_eq = record { same = party_beq; same_iff = party_beq_iff }

abbrev pub state_beq : ModelState → ModelState → Bool
state_beq s t =
    s.parties == t.parties
    && s.certificates == t.certificates
    && s.evaluated == t.evaluated
    && s.rollback_count == t.rollback_count
    && s.retired_finalized == t.retired_finalized
    && s.post_retirement_certificate == t.post_retirement_certificate
    && s.post_retirement_evaluation == t.post_retirement_evaluation
    && s.anchor_chain == t.anchor_chain
    && s.anchor_retired == t.anchor_retired

pub state_beq_iff : (s t : ModelState) → (state_beq s t ≡ true) ↔ (s ≡ t)
state_beq_iff s t = ground (
  arith,
  list_beq_iff s.parties t.parties,
  list_beq_iff s.certificates t.certificates,
  list_beq_iff s.evaluated t.evaluated,
  list_beq_iff s.anchor_chain t.anchor_chain,
  nat_eq.same_iff s.rollback_count t.rollback_count,
  bool_eq.same_iff s.retired_finalized t.retired_finalized,
  bool_eq.same_iff s.post_retirement_certificate t.post_retirement_certificate,
  bool_eq.same_iff s.post_retirement_evaluation t.post_retirement_evaluation,
  bool_eq.same_iff s.anchor_retired t.anchor_retired,
)

instance abbrev pub state_eq : Eq ModelState
state_eq = record { same = state_beq; same_iff = state_beq_iff }
