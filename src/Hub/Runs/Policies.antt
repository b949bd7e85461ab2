-- ===== src/Hub/Runs/Policies.antt =====
-- Run policies: packages/hub-core/src/index/run-policy.ts.
pub mod Resolved
use murrmure.Prelude.{ℕ, String, List, [], ◌∷◌, ◌++◌, if◌then◌else◌, template, get_or, fold}
use murrmure.Dict.{Dict, lookup, insert, string_key}
use murrmure.Hub.Sets.{has, add}
use murrmure.Hub.Runs.{ResolvedRunPolicy}

abbrev pub run_policy_unknown_flow : String
run_policy_unknown_flow = "RUN_POLICY_UNKNOWN_FLOW"

abbrev pub run_policy_ambiguous_flow : String
run_policy_ambiguous_flow = "RUN_POLICY_AMBIGUOUS_FLOW"

abbrev pub run_policy_duplicate : String
run_policy_duplicate = "RUN_POLICY_DUPLICATE"

pub record RunPolicy : Type 0 where
  pub flow : String
  pub max_concurrent_runs : ℕ

pub record RunPolicyFlow : Type 0 where
  pub name : String
  pub flow_id : String
  pub digest : String
  pub origin_space_id : String

pub data Resolution : Type 0 where
  resolved : List ResolvedRunPolicy → Resolution
  unresolved : (code message flow : String) → Resolution

abbrev pub add_named :
    Dict String (List RunPolicyFlow) → RunPolicyFlow → Dict String (List RunPolicyFlow)
add_named by_name flow =
    insert flow.name (get_or (lookup flow.name by_name) [] ++ flow ∷ []) by_name

unfoldable pub flows_by_name : List RunPolicyFlow → Dict String (List RunPolicyFlow)
flows_by_name flows = fold add_named [] flows

abbrev pub resolve_to : RunPolicy → RunPolicyFlow → ResolvedRunPolicy
resolve_to policy flow = record {
  flow = policy.flow;
  max_concurrent_runs = policy.max_concurrent_runs;
  origin_space_id = flow.origin_space_id;
  flow_id = flow.flow_id;
  flow_digest = flow.digest;
}

abbrev pub unknown_flow : RunPolicy → Resolution
unknown_flow policy =
    Resolution.unresolved run_policy_unknown_flow
      (template ("run_policies references unknown or stale flow alias '" ∷ policy.flow ∷ "'" ∷ []))
      policy.flow

abbrev pub ambiguous_flow : RunPolicy → Resolution
ambiguous_flow policy =
    Resolution.unresolved run_policy_ambiguous_flow
      (template (
        "run_policies references ambiguous flow name '" ∷ policy.flow ∷ "' (duplicate flow names)"
        ∷ []))
      policy.flow

abbrev pub duplicate_policy : RunPolicy → Resolution
duplicate_policy policy =
    Resolution.unresolved run_policy_duplicate
      (template ("run_policies has duplicate entries for flow '" ∷ policy.flow ∷ "'" ∷ []))
      policy.flow

-- One round of the loop, for the flows that have the policy's name; `next` is the loop over the
-- policies that follow, with the ids seen and the policies resolved until then.
abbrev pub resolve_match :
    RunPolicy
    → List RunPolicyFlow
    → (List String → List ResolvedRunPolicy → Resolution)
    → List String
    → List ResolvedRunPolicy
    → Resolution
resolve_match policy [] next seen out = unknown_flow policy
resolve_match policy (flow ∷ other ∷ flows) next seen out = ambiguous_flow policy
resolve_match policy (flow ∷ []) next seen out =
    if has flow.flow_id seen
    then duplicate_policy policy
    else next (add seen flow.flow_id) (out ++ resolve_to policy flow ∷ [])

unfoldable pub resolve_each :
    Dict String (List RunPolicyFlow)
    → List RunPolicy
    → List String
    → List ResolvedRunPolicy
    → Resolution
resolve_each by_name [] seen out = Resolution.resolved out
resolve_each by_name (policy ∷ policies) seen out =
    resolve_match policy (get_or (lookup policy.flow by_name) []) (resolve_each by_name policies)
      seen out

unfoldable pub resolve_run_policies : List RunPolicy → List RunPolicyFlow → Resolution
resolve_run_policies policies flows = resolve_each (flows_by_name flows) policies [] []
