-- ===== src/Hub/Cycles/Bundle.antt =====
-- The graph that packages/hub-core/src/flow-engine/cycle-detect.ts builds from the flows of a
-- bundle, and its answer on the bundle.
use murrmure.Prelude.{
  ◌≡◌, ◌↔◌, refl, sym, ap, ◌∙◌, String, Bool, true, false, ◌||◌, Option, none, some, List, [], ◌∷◌,
  arith, fold, get_or, Bool-cases, inl, inr, if◌then◌else◌, ◌==◌, non_empty,
}
use murrmure.Dict.{lookup, insert, lookup-insert, string_key}
use murrmure.Hub.Cycles.{
  Step, Lane, Steps, BundleFlow, Graph, walk, walk_step, walk_lane, push_target,
  collect_start_flow_targets, flow_id_of, build_flow_call_graph, detect_cycle_in_graph, CycleCheck,
  check_found, detect_flow_call_cycles, search,
}
use murrmure.Hub.Sets.{has, has-snoc}
use murrmure.Hub.Cycles.Search.{Edge, IsCycle}
use murrmure.Hub.Cycles.Decide.{detect_cycle_in_graph-none_iff}

-- The flow id is not empty and the text is this id.
abbrev pub names : String → Option String → Bool
names b none = false
names b (some flow_id) = flow_id == b

-- A step of the flow, or of a lane of it at any depth, starts the flow b.
unfoldable mutual
  pub mentions_step : String → Step → Bool
  mentions_step b (Step.step start_flow parallel) =
      names b (non_empty start_flow) || mentions_lane b parallel

  pub mentions_lane : String → Lane → Bool
  mentions_lane b Lane.no_lane = false
  mentions_lane b (Lane.lane steps) = mentions b steps

  pub mentions : String → Steps → Bool
  mentions b Steps.nil = false
  mentions b (Steps.cons s steps) = mentions_step b s || mentions b steps

or_assoc : (a b c : Bool) → ((a || b) || c) ≡ (a || (b || c))
or_assoc a b c = ground arith

has-push_target :
    (b : String) (o : Option String) (targets : List String)
    → has b (push_target o targets) ≡ (has b targets || names b o)
has-push_target b none targets = ground arith
has-push_target b (some c) targets = ground (arith, has-snoc b c targets)

mutual
  unfolding walk mentions

  has-walk_step :
      (b : String) (s : Step) (targets : List String)
      → has b (walk_step s targets) ≡ (has b targets || mentions_step b s)
  has-walk_step b (Step.step o parallel) targets =
      has-walk_lane b parallel (push_target (non_empty o) targets)
      ∙ ap (λ h. h || mentions_lane b parallel) (has-push_target b (non_empty o) targets)
      ∙ or_assoc (has b targets) (names b (non_empty o)) (mentions_lane b parallel)

  has-walk_lane :
      (b : String) (l : Lane) (targets : List String)
      → has b (walk_lane l targets) ≡ (has b targets || mentions_lane b l)
  has-walk_lane b Lane.no_lane targets = ground arith
  has-walk_lane b (Lane.lane steps) targets = has-walk b steps targets

  has-walk :
      (b : String) (steps : Steps) (targets : List String)
      → has b (walk steps targets) ≡ (has b targets || mentions b steps)
  has-walk b Steps.nil targets = ground arith
  has-walk b (Steps.cons s steps) targets =
      has-walk b steps (walk_step s targets)
      ∙ ap (λ h. h || mentions b steps) (has-walk_step b s targets)
      ∙ or_assoc (has b targets) (mentions_step b s) (mentions b steps)

module _ (slug : String → String) where
  -- The targets of the last flow of the bundle with this id, or those given.
  abbrev pub last_targets : String → Option (List String) → List BundleFlow → Option (List String)
  last_targets a given [] = given
  last_targets a given (flow ∷ flows) =
      last_targets a
        (if flow_id_of slug flow == a
          then some (collect_start_flow_targets flow.manifest)
          else given)
        flows

  -- Whether the last flow with the id a, if there is one, starts the flow b.
  abbrev pub starts : String → String → Bool → List BundleFlow → Bool
  starts a b given [] = given
  starts a b given (flow ∷ flows) =
      starts a b (if flow_id_of slug flow == a then mentions b flow.manifest.steps else given) flows

  lookup-build :
      (a : String) (graph : Graph) (flows : List BundleFlow)
      → lookup a (
          fold
            (λ g flow. insert (flow_id_of slug flow) (collect_start_flow_targets flow.manifest) g)
            graph
            flows)
        ≡ last_targets a (lookup a graph) flows
  lookup-build a graph [] = refl
  lookup-build a graph (flow ∷ flows) =
      lookup-build a
        (insert (flow_id_of slug flow) (collect_start_flow_targets flow.manifest) graph) flows
      ∙ ap (λ o. last_targets a o flows)
          (lookup-insert (flow_id_of slug flow) a (collect_start_flow_targets flow.manifest) graph)

  starts-last_targets :
      (a b : String) (o : Option (List String)) (given : Bool) (flows : List BundleFlow)
      → has b (get_or o []) ≡ given
      → has b (get_or (last_targets a o flows) []) ≡ starts a b given flows
  unfolding collect_start_flow_targets
  starts-last_targets a b o given [] h = h
  starts-last_targets a b o given (flow ∷ flows) h = elim (Bool-cases (flow_id_of slug flow == a)) [
    | inl y ↦ rw y (
        starts-last_targets a b (some (collect_start_flow_targets flow.manifest))
          (mentions b flow.manifest.steps) flows (has-walk b flow.manifest.steps []))
    | inr n ↦ rw n (starts-last_targets a b o given flows h)
  ]

  -- In the graph of a bundle, a flow starts another one exactly when the last flow of the bundle
  -- with its id has a step, or a step of a lane at any depth, that starts the other one.
  pub Edge-starts :
      (flows : List BundleFlow) (a b : String)
      → Edge (build_flow_call_graph slug flows) a b ↔ (starts a b false flows ≡ true)
  unfolding build_flow_call_graph lookup
  Edge-starts flows a b =
      let same =
        ap (λ o. has b (get_or o [])) (lookup-build a [] flows)
        ∙ starts-last_targets a b none false flows refl in
      (λ e. sym same ∙ e, λ e. same ∙ e)

  null-ok :
      (r : Option (Option (List String))) → (r ≡ some none) ↔ (check_found r ≡ some CycleCheck.ok)
  null-ok none = (λ h. cc, λ h. cc)
  null-ok (some none) = (λ h. refl, λ h. refl)
  null-ok (some (some path)) = (λ h. cc, λ h. cc)

  empty-null : detect_cycle_in_graph [] ≡ some none
  unfolding detect_cycle_in_graph search
  empty-null = refl

  -- A bundle is accepted exactly when the graph of its flows has no cycle.
  pub detect_flow_call_cycles-ok_iff :
      (flows : List BundleFlow)
      → (detect_flow_call_cycles slug flows ≡ some CycleCheck.ok)
        ↔ ((path : List String) → ¬ IsCycle (build_flow_call_graph slug flows) path)
  unfolding detect_flow_call_cycles build_flow_call_graph
  detect_flow_call_cycles-ok_iff [] =
      (λ h. (detect_cycle_in_graph-none_iff []).0 empty-null, λ h. refl)
  detect_flow_call_cycles-ok_iff (flow ∷ flows) =
      let graph = build_flow_call_graph slug (flow ∷ flows) in
      let accepted = null-ok (detect_cycle_in_graph graph) in
      let null = detect_cycle_in_graph-none_iff graph in
      (λ h. null.0 (accepted.1 h), λ h. accepted.0 (null.1 h))
