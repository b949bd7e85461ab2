-- ===== src/Samples/Flows.antt =====
-- The theorems on flow graphs, run policies, sessions and ids, at sample values.
use murrmure.Prelude.{◌≡◌, ◌≢◌, ◌↔◌, refl, String, true, false, none, some, List, [], ◌∷◌}
use murrmure.Dict.{lookup, string_key}
use murrmure.Hub.Cycles.{
  Step, Lane, Steps, BundleFlow, Graph, CycleCheck, detect_cycle_in_graph, search, dfs,
  build_flow_call_graph, detect_flow_call_cycles,
}
use murrmure.Hub.Cycles.Search.{Edge, IsCycle}
use murrmure.Hub.Cycles.Decide.{
  detect_cycle_in_graph-returns, detect_cycle_in_graph-IsCycle, detect_cycle_in_graph-none_iff,
}
use murrmure.Hub.Cycles.Bundle.{starts, Edge-starts, detect_flow_call_cycles-ok_iff}
use murrmure.Hub.Runs.{completed, failed, ResolvedRunPolicy}
use murrmure.Hub.Runs.Status.{derive_session_status}
use murrmure.Hub.Runs.Status.Summary.{status_of, derive_session_status-status_of}
use murrmure.Hub.Runs.Policies.{RunPolicy, RunPolicyFlow, Resolution, resolve_run_policies}
use murrmure.Hub.Runs.Policies.Resolved.{Resolves, resolve_run_policies-Resolves}

-- a starts b and c, b starts c, and c starts b.
abbrev looping : Graph
looping = ("a", "b" ∷ "c" ∷ []) ∷ ("b", "c" ∷ []) ∷ ("c", "b" ∷ []) ∷ []

abbrev straight : Graph
straight = ("a", "b" ∷ "c" ∷ []) ∷ ("b", "c" ∷ []) ∷ []

looping_found : detect_cycle_in_graph looping ≡ some (some ("b" ∷ "c" ∷ "b" ∷ []))
unfolding detect_cycle_in_graph search dfs lookup
looping_found = refl

straight_found : detect_cycle_in_graph straight ≡ some none
unfolding detect_cycle_in_graph search dfs lookup
straight_found = refl

detect_cycle_in_graph-returns_example : detect_cycle_in_graph looping ≢ none
detect_cycle_in_graph-returns_example = detect_cycle_in_graph-returns looping

detect_cycle_in_graph-IsCycle_example : IsCycle looping ("b" ∷ "c" ∷ "b" ∷ [])
detect_cycle_in_graph-IsCycle_example =
    detect_cycle_in_graph-IsCycle looping ("b" ∷ "c" ∷ "b" ∷ []) looping_found

detect_cycle_in_graph-none_iff_example :
    (detect_cycle_in_graph straight ≡ some none) ↔ ((path : List String) → ¬ IsCycle straight path)
detect_cycle_in_graph-none_iff_example = detect_cycle_in_graph-none_iff straight

abbrev call : String → Step
call flow_id = Step.step (some flow_id) Lane.no_lane

abbrev flow : String → Steps → BundleFlow
flow id steps = record { flow_id = some id; manifest = record { name = id; steps = steps } }

-- The second flow starts the first one from a lane.
abbrev bundle : List BundleFlow
bundle =
    flow "a" (Steps.cons (call "b") Steps.nil)
    ∷ flow "b" (Steps.cons (Step.step none (Lane.lane (Steps.cons (call "a") Steps.nil))) Steps.nil)
    ∷ []

Edge-starts_example :
    Edge (build_flow_call_graph (λ name. name) bundle) "b" "a"
    ↔ (starts (λ name. name) "b" "a" false bundle ≡ true)
Edge-starts_example = Edge-starts (λ name. name) bundle "b" "a"

detect_flow_call_cycles-ok_iff_example :
    (detect_flow_call_cycles (λ name. name) bundle ≡ some CycleCheck.ok)
    ↔ ((path : List String) → ¬ IsCycle (build_flow_call_graph (λ name. name) bundle) path)
detect_flow_call_cycles-ok_iff_example = detect_flow_call_cycles-ok_iff (λ name. name) bundle

abbrev flows : List RunPolicyFlow
flows =
    record { name = "review"; flow_id = "flw_r"; digest = "d1"; origin_space_id = "spc_dev" }
    ∷ record { name = "build"; flow_id = "flw_b"; digest = "d2"; origin_space_id = "spc_dev" }
    ∷ []

abbrev policies : List RunPolicy
policies = record { flow = "build"; max_concurrent_runs = 2 } ∷ []

abbrev resolved_build : List ResolvedRunPolicy
resolved_build =
    record {
      flow = "build";
      max_concurrent_runs = 2;
      origin_space_id = "spc_dev";
      flow_id = "flw_b";
      flow_digest = "d2";
    }
    ∷ []

resolve_run_policies-Resolves_example :
    (resolve_run_policies policies flows ≡ Resolution.resolved resolved_build)
    ↔ Resolves flows [] policies resolved_build
resolve_run_policies-Resolves_example = resolve_run_policies-Resolves flows policies resolved_build

derive_session_status-status_of_example :
    derive_session_status (completed ∷ failed ∷ []) false
    ≡ status_of false false true true (completed ∷ failed ∷ [])
derive_session_status-status_of_example =
    derive_session_status-status_of (completed ∷ failed ∷ []) false
