-- ===== src/AttemptModel/Scenarios.antt =====
-- `SCENARIOS` of prototype_final/locus/attempt_model.py.
use locus_v.Prelude.{true, false, none, some, List, [], ◌∷◌}
use locus_v.AttemptModel.State.{
  ModelScenario, quorum, monotonic_anchor, conflicting_authorization_certificates,
  authorization_after_final_retirement,
}

abbrev pub baseline_concurrency : ModelScenario
baseline_concurrency = record {
  scenario_id = "baseline-concurrency-no-rollback-v1";
  reconciliation = quorum;
  rollback_limit = 0;
  max_depth = 12;
  max_states = 120_000;
  retired_snapshot_seed = false;
  expected_violation = none;
}

abbrev pub single_rollback_quorum : ModelScenario
single_rollback_quorum = record {
  scenario_id = "single-honest-rollback-quorum-v1";
  reconciliation = quorum;
  rollback_limit = 1;
  max_depth = 14;
  max_states = 160_000;
  retired_snapshot_seed = false;
  expected_violation = some conflicting_authorization_certificates;
}

abbrev pub single_rollback_anchor : ModelScenario
single_rollback_anchor = record {
  scenario_id = "single-honest-rollback-anchor-v1";
  reconciliation = monotonic_anchor;
  rollback_limit = 1;
  max_depth = 14;
  max_states = 160_000;
  retired_snapshot_seed = false;
  expected_violation = none;
}

abbrev pub double_rollback_quorum : ModelScenario
double_rollback_quorum = record {
  scenario_id = "double-honest-rollback-quorum-v1";
  reconciliation = quorum;
  rollback_limit = 2;
  max_depth = 14;
  max_states = 180_000;
  retired_snapshot_seed = false;
  expected_violation = some conflicting_authorization_certificates;
}

abbrev pub double_rollback_anchor : ModelScenario
double_rollback_anchor = record {
  scenario_id = "double-honest-rollback-anchor-v1";
  reconciliation = monotonic_anchor;
  rollback_limit = 2;
  max_depth = 14;
  max_states = 180_000;
  retired_snapshot_seed = false;
  expected_violation = none;
}

abbrev pub retired_epoch_quorum : ModelScenario
retired_epoch_quorum = record {
  scenario_id = "retired-epoch-double-rollback-quorum-v1";
  reconciliation = quorum;
  rollback_limit = 2;
  max_depth = 8;
  max_states = 40_000;
  retired_snapshot_seed = true;
  expected_violation = some authorization_after_final_retirement;
}

abbrev pub retired_epoch_anchor : ModelScenario
retired_epoch_anchor = record {
  scenario_id = "retired-epoch-double-rollback-anchor-v1";
  reconciliation = monotonic_anchor;
  rollback_limit = 2;
  max_depth = 8;
  max_states = 40_000;
  retired_snapshot_seed = true;
  expected_violation = none;
}

abbrev pub scenarios : List ModelScenario
scenarios =
    baseline_concurrency ∷ single_rollback_quorum ∷ single_rollback_anchor ∷ double_rollback_quorum
    ∷ double_rollback_anchor ∷ retired_epoch_quorum ∷ retired_epoch_anchor ∷ []
