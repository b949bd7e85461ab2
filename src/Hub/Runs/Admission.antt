-- ===== src/Hub/Runs/Admission.antt =====
-- Run capacity and apply quiescence: packages/hub-core/src/run/admission.ts.
use murrmure.Prelude.{
  ℕ, String, Bool, Option, none, some, List, [], ◌∷◌, if◌then◌else◌, template, find, length, leb,
  nat_eq, map, ◌==◌,
}
use murrmure.Dict.{lookup, string_key}
use murrmure.Text.{decimal}
use murrmure.Hub.Ids.{bare_space_id, prefixed_run}
use murrmure.Hub.Runs.{
  RunLifecycle, working, input_required, RunRow, ResolvedRunPolicy, SpaceIndexSnapshot, Studio,
  list_runs,
}

abbrev pub flow_concurrency_limit : String
flow_concurrency_limit = "FLOW_CONCURRENCY_LIMIT"

abbrev pub space_has_active_runs : String
space_has_active_runs = "SPACE_HAS_ACTIVE_RUNS"

abbrev pub non_terminal_lifecycles : List RunLifecycle
non_terminal_lifecycles = working ∷ input_required ∷ []

pub record FlowAdmissionError : Type 0 where
  pub code : String
  pub message : String
  pub flow_id : String
  pub flow_name : String
  pub origin_space_id : String
  pub flow_digest : String
  pub max_concurrent_runs : ℕ
  pub active_run_ids : List String

pub record SpaceApplyQuiescenceError : Type 0 where
  pub code : String
  pub message : String
  pub active_run_ids : List String

pub data FlowAdmission : Type 0 where
  admitted : (max_concurrent_runs : Option ℕ) → FlowAdmission
  at_capacity : FlowAdmissionError → FlowAdmission

abbrev pub snapshot_policies : Option SpaceIndexSnapshot → List ResolvedRunPolicy
snapshot_policies none = []
snapshot_policies (some snapshot) = snapshot.run_policies

-- `listIndexedRunPolicies` of packages/hub-persistence/src/memory.ts.
unfoldable pub list_indexed_run_policies : String → Studio → List ResolvedRunPolicy
list_indexed_run_policies space_id s =
    snapshot_policies (lookup (bare_space_id space_id) s.space_index)

abbrev pub plural : ℕ → String
plural n = if nat_eq n 1 then "" else "s"

abbrev pub capacity_error : ResolvedRunPolicy → List RunRow → FlowAdmissionError
capacity_error policy active = record {
  code = flow_concurrency_limit;
  message = template (
      "Flow '"
      ∷ policy.flow
      ∷ "' is at capacity ("
      ∷ decimal policy.max_concurrent_runs
      ∷ " concurrent run"
      ∷ plural policy.max_concurrent_runs
      ∷ " allowed)"
      ∷ []);
  flow_id = policy.flow_id;
  flow_name = policy.flow;
  origin_space_id = policy.origin_space_id;
  flow_digest = policy.flow_digest;
  max_concurrent_runs = policy.max_concurrent_runs;
  active_run_ids = map (λ run. prefixed_run run.run_id) active;
}

abbrev pub admit_under : Option ResolvedRunPolicy → List RunRow → FlowAdmission
admit_under none active = FlowAdmission.admitted none
admit_under (some policy) active =
    if leb policy.max_concurrent_runs (length active)
    then FlowAdmission.at_capacity (capacity_error policy active)
    else FlowAdmission.admitted (some policy.max_concurrent_runs)

abbrev pub policy_of : String → List ResolvedRunPolicy → Option ResolvedRunPolicy
policy_of flow_id policies = find (λ p. p.flow_id == flow_id) policies

abbrev pub quiescence : List RunRow → Option SpaceApplyQuiescenceError
quiescence [] = none
quiescence (run ∷ runs) =
    let count = length (run ∷ runs) in
    some (record {
      code = space_has_active_runs;
      message = template (
          "Space has "
          ∷ decimal count
          ∷ " non-terminal run"
          ∷ plural count
          ∷ "; apply cannot replace configuration until they terminate"
          ∷ []);
      active_run_ids = map (λ r. prefixed_run r.run_id) (run ∷ runs);
    })

module _ (before : String → String → Bool) where
  unfoldable pub active_flow_runs : String → String → Studio → List RunRow
  active_flow_runs space_bare flow_id s =
      list_runs before
        (record {
          space_id = some space_bare;
          flow_id = some flow_id;
          lifecycles = non_terminal_lifecycles;
        })
        s

  unfoldable pub active_space_runs : String → Studio → List RunRow
  active_space_runs space_bare s =
      list_runs before
        (record {
          space_id = some space_bare;
          flow_id = none;
          lifecycles = non_terminal_lifecycles;
        })
        s

  unfoldable pub admit_flow_run : (space_id flow_id : String) → Studio → FlowAdmission
  admit_flow_run space_id flow_id s =
      let space_bare = bare_space_id space_id in
      admit_under (policy_of flow_id (list_indexed_run_policies space_bare s))
        (active_flow_runs space_bare flow_id s)

  -- The error, or none when the space has no active run.
  unfoldable pub assert_space_quiescent : String → Studio → Option SpaceApplyQuiescenceError
  assert_space_quiescent space_id s = quiescence (active_space_runs (bare_space_id space_id) s)
