-- ===== src/AttemptModel/Violation.antt =====
-- `_violation` of prototype_final/locus/attempt_model.py: the safety test of a state.
use locus_v.Prelude.{
  Bool, false, not, ◌&&◌, ◌||◌, Option, none, some, List, [], ◌∷◌, ◌++◌, ltb, if◌then◌else◌,
}
use locus_v.Prelude.Eq.{◌==◌, nat_eq, list_eq}
use locus_v.Prelude.Lists.{length}
use locus_v.Prelude.Sets.{contains, to_set, is_subset}
use locus_v.Prelude.Prefixes.{is_prefix}
use locus_v.Prelude.Results.{ok, ◌>>◌}
use locus_v.AttemptModel.State.{
  Request, request_eq, Chain, Checked, ModelState, budget, Violation,
  authorization_after_final_retirement, evaluation_after_final_retirement,
  certificate_budget_or_retry_violation, conflicting_authorization_certificates,
  distinct_evaluation_budget_overrun, uncertified_threshold_evaluation, invalid_anchor_retirement,
  anchor_without_certificate,
}
use locus_v.AttemptModel.Party.{validate_all}

-- The later certificates hold one that is incomparable with `left`.
abbrev pub conflicts : Chain → List Chain → Bool
conflicts left [] = false
conflicts left (right ∷ rest) =
    (not (is_prefix left right) && not (is_prefix right left)) || conflicts left rest

abbrev pub overruns : Chain → Bool
overruns left = ltb budget (length left) || not (length (to_set left) == length left)

-- The nested loops over the certificates.
abbrev pub certificates_violation : List Chain → Option Violation
certificates_violation [] = none
certificates_violation (left ∷ rest) =
    let later = certificates_violation rest in
    if overruns left
    then some certificate_budget_or_retry_violation
    else if conflicts left rest
    then some conflicting_authorization_certificates
    else later

-- { request for certificate in certificates for request in certificate }
abbrev pub certified_requests : List Chain → List Request
certified_requests [] = []
certified_requests (c ∷ cs) = c ++ certified_requests cs

-- The tests after the loops.
abbrev pub closing_violation : ModelState → Option Violation
closing_violation s =
    if ltb budget (length s.evaluated)
    then some distinct_evaluation_budget_overrun
    else if not (is_subset s.evaluated (certified_requests s.certificates))
    then some uncertified_threshold_evaluation
    else if s.anchor_retired && not s.retired_finalized
    then some invalid_anchor_retirement
    else if not (s.anchor_chain == []) && not (contains s.certificates s.anchor_chain)
    then some anchor_without_certificate
    else none

abbrev or_else {ℓ} : {A : Type ℓ} → Option A → Option A → Option A
or_else none b = b
or_else (some a) b = some a

abbrev pub state_violation : ModelState → Option Violation
state_violation s =
    if s.post_retirement_certificate
    then some authorization_after_final_retirement
    else if s.post_retirement_evaluation
    then some evaluation_after_final_retirement
    else or_else (certificates_violation s.certificates) (closing_violation s)

unfoldable pub violation : ModelState → Checked (Option Violation)
violation s = do validate_all s.parties; ok (state_violation s)
