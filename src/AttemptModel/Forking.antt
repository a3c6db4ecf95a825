-- ===== src/AttemptModel/Forking.antt =====
-- Why the anchor is needed: with quorums alone, restored snapshots lead to violations.
use Prim.Native.String.{String}
use locus_v.Prelude.{ℕ, ◌≤◌, ◌≡◌, refl, Bool, true, false, Option, some, [], ◌∷◌, arith, leb}
use locus_v.Prelude.Results.{ok}
use locus_v.AttemptModel.State.{
  ModelState, ModelScenario, quorum, Violation, conflicting_authorization_certificates,
  authorization_after_final_retirement,
}
use locus_v.AttemptModel.Successors.{Successor}
use locus_v.AttemptModel.Violation.{violation}
use locus_v.AttemptModel.Reach.{Reach}
use locus_v.AttemptModel.Families.{votes, prepares, certificates, reconciles}
use locus_v.AttemptModel.Run.{Run, run_on, roll_back, begin}

module _ (before : Successor → Successor → Bool) (scenario_id : String) (limit depth states : ℕ)
    (expected : Option Violation) where
  abbrev pub quorum_scenario : Bool → ModelScenario
  quorum_scenario seed = record {
    scenario_id = scenario_id;
    reconciliation = quorum;
    rollback_limit = limit;
    max_depth = depth;
    max_states = states;
    retired_snapshot_seed = seed;
    expected_violation = expected;
  }

  revived : Run before (quorum_scenario true)
  unfolding run_on
  revived = run_on (begin before (quorum_scenario true)) (
      (reconciles, 0)
      ∷ (reconciles, 0)
      ∷ (votes, 0)
      ∷ (votes, 0)
      ∷ (prepares, 0)
      ∷ (prepares, 0)
      ∷ (certificates, 0)
      ∷ [])

  -- In every scenario that trusts quorums and starts from two restored snapshots of a retired
  -- epoch, a state with an authorization after the retirement is reachable.
  pub revival_reachable :
      (s : ModelState) × Reach before (quorum_scenario true) s
      × (violation s ≡ ok (some authorization_after_final_retirement))
  unfolding revived violation
  revival_reachable = (revived.last, revived.reach, refl)

  -- Request a is certified.
  certified : Run before (quorum_scenario false)
  unfolding run_on
  certified =
      run_on (begin before (quorum_scenario false))
        ((votes, 0) ∷ (votes, 0) ∷ (prepares, 0) ∷ (prepares, 0) ∷ (certificates, 0) ∷ [])

  -- One of its two honest supporters loses its lock, and takes part in a certificate for request b.
  forked : leb limit 0 ≡ false → Run before (quorum_scenario false)
  unfolding certified roll_back
  forked below = run_on (roll_back certified below 1) (
      (reconciles, 0)
      ∷ (votes, 1)
      ∷ (votes, 1)
      ∷ (prepares, 0)
      ∷ (prepares, 0)
      ∷ (certificates, 0)
      ∷ [])

  -- In every scenario that trusts quorums, starts from the active genesis and allows a rollback, a
  -- state with conflicting certificates is reachable.
  pub fork_reachable :
      1 ≤ limit
      → (s : ModelState) × Reach before (quorum_scenario false) s
        × (violation s ≡ ok (some conflicting_authorization_certificates))
  unfolding forked violation
  fork_reachable h =
      let below : leb limit 0 ≡ false = ground arith in
      ((forked below).last, (forked below).reach, refl)
