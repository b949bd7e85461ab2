-- ===== src/Hub/Cycles.antt =====
-- packages/hub-core/src/flow-engine/cycle-detect.ts: the graph of the flows that flows start, and
-- the search for a cycle in it.
pub mod Lists
pub mod Search
pub mod Lasts
pub mod Decide
pub mod Bundle
use murrmure.Prelude.{
  ℕ, zero, suc, String, Option, none, some, List, [], ◌∷◌, ◌++◌, template, if◌then◌else◌, get_or,
  non_empty, length, fold,
}
use murrmure.Dict.{Dict, lookup, insert, string_key}
use murrmure.Text.{join}
use murrmure.Hub.Cycles.Lists.{delete, index_of, drop, pop}
use murrmure.Hub.Sets.{has}

abbrev pub flow_call_cycle : String
flow_call_cycle = "FLOW_CALL_CYCLE"

-- A step of a flow manifest: `start_flow?.flow_id`, and the steps of `parallel?.lane`.
mutual
  pub data Step : Type 0 where
    step : Option String → Lane → Step

  pub data Lane : Type 0 where
    no_lane : Lane
    lane : Steps → Lane

  pub data Steps : Type 0 where
    nil : Steps
    cons : Step → Steps → Steps

pub record FlowManifest : Type 0 where
  pub name : String
  pub steps : Steps

pub record BundleFlow : Type 0 where
  pub flow_id : Option String
  pub manifest : FlowManifest

abbrev pub push_target : Option String → List String → List String
push_target none targets = targets
push_target (some flow_id) targets = targets ++ flow_id ∷ []

-- `walk`, with the array it pushes to.
unfoldable mutual
  pub walk_step : Step → List String → List String
  walk_step (Step.step start_flow parallel) targets =
      walk_lane parallel (push_target (non_empty start_flow) targets)

  pub walk_lane : Lane → List String → List String
  walk_lane Lane.no_lane targets = targets
  walk_lane (Lane.lane steps) targets = walk steps targets

  pub walk : Steps → List String → List String
  walk Steps.nil targets = targets
  walk (Steps.cons s steps) targets = walk steps (walk_step s targets)

unfoldable pub collect_start_flow_targets : FlowManifest → List String
collect_start_flow_targets manifest = walk manifest.steps []

abbrev pub Graph : Type 0
Graph = Dict String (List String)

-- `graph.keys()`.
abbrev pub nodes : Graph → List String
nodes [] = []
nodes ((node, targets) ∷ graph) = node ∷ nodes graph

-- `graph.get(node) ?? []`.
abbrev pub targets_of : Graph → String → List String
targets_of graph node = get_or (lookup node graph) []

-- `slug` is flowIdFromName's replacement by regular expressions.
abbrev pub flow_id_from_name : (String → String) → String → String
flow_id_from_name slug name =
    template ("flw_" ∷ get_or (non_empty (some (slug name))) "unnamed" ∷ [])

abbrev pub flow_id_of : (String → String) → BundleFlow → String
flow_id_of slug flow = get_or (non_empty flow.flow_id) (flow_id_from_name slug flow.manifest.name)

unfoldable pub build_flow_call_graph : (String → String) → List BundleFlow → Graph
build_flow_call_graph slug flows =
    fold
      (λ graph flow. insert (flow_id_of slug flow) (collect_start_flow_targets flow.manifest) graph)
      [] flows

-- The variables of the search. A Set is the list of its members; only membership is asked.
pub record Marks : Type 0 where
  pub visiting : List String
  pub visited : List String
  pub path : List String

-- What a call of `dfs` does: it returns a cycle, or null with the variables as it leaves them. A
-- search that runs out of fuel is `exhausted`.
pub data Walk : Type 0 where
  exhausted : Walk
  cycle : List String → Walk
  clear : Marks → Walk

-- `if (cycle) return cycle;`, and then the rest.
abbrev pub and_then : Walk → (Marks → Walk) → Walk
and_then Walk.exhausted rest = Walk.exhausted
and_then (Walk.cycle path) rest = Walk.cycle path
and_then (Walk.clear after) rest = rest after

-- The loop over the nodes, `for (const node of nodes) { … dfs(node) … }`.
abbrev pub each : (String → Marks → Walk) → List String → Marks → Walk
each dfs [] s = Walk.clear s
each dfs (node ∷ rest) s = and_then (dfs node s) (each dfs rest)

-- `cycleStart >= 0 ? [...path.slice(cycleStart), node] : [node, node]`.
abbrev pub closing_from : Option ℕ → List String → String → List String
closing_from none path node = node ∷ node ∷ []
closing_from (some start) path node = drop start path ++ node ∷ []

abbrev pub closing : List String → String → List String
closing path node = closing_from (index_of node path) path node

abbrev pub enter : String → Marks → Marks
enter node s = record {
  visiting = node ∷ s.visiting;
  visited = s.visited;
  path = s.path ++ node ∷ [];
}

abbrev pub leave : String → Marks → Marks
leave node s = record {
  visiting = delete node s.visiting;
  visited = node ∷ s.visited;
  path = pop s.path;
}

unfoldable pub dfs : Graph → ℕ → String → Marks → Walk
dfs graph zero node s = Walk.exhausted
dfs graph (suc fuel) node s =
    let below = each (dfs graph fuel) (targets_of graph node) (enter node s) in
    if has node s.visiting
    then Walk.cycle (closing s.path node)
    else if has node s.visited
    then Walk.clear s
    else and_then below (λ after. Walk.clear (leave node after))

abbrev pub unmarked : Marks
unmarked = record { visiting = []; visited = []; path = [] }

-- A path has each node of the graph at most once, and may end in one that is not in the graph.
unfoldable pub search : Graph → Walk
search graph = each (dfs graph (suc (length (nodes graph)))) (nodes graph) unmarked

-- The cycle or null; none stands for a search that ran out of fuel.
abbrev pub returned : Walk → Option (Option (List String))
returned Walk.exhausted = none
returned (Walk.cycle path) = some (some path)
returned (Walk.clear s) = some none

unfoldable pub detect_cycle_in_graph : Graph → Option (Option (List String))
detect_cycle_in_graph graph = returned (search graph)

pub data CycleCheck : Type 0 where
  ok : CycleCheck
  refused : (code message : String) (cycle : List String) → CycleCheck

abbrev pub cycle_check : Option (List String) → CycleCheck
cycle_check none = CycleCheck.ok
cycle_check (some path) =
    CycleCheck.refused flow_call_cycle
      (template ("Flow-call cycle detected: " ∷ join " → " path ∷ [])) path

abbrev pub check_found : Option (Option (List String)) → Option CycleCheck
check_found none = none
check_found (some found) = some (cycle_check found)

-- none stands for a search that ran out of fuel.
unfoldable pub detect_flow_call_cycles : (String → String) → List BundleFlow → Option CycleCheck
detect_flow_call_cycles slug [] = some CycleCheck.ok
detect_flow_call_cycles slug (flow ∷ flows) =
    check_found (detect_cycle_in_graph (build_flow_call_graph slug (flow ∷ flows)))
