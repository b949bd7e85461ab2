-- ===== src/Hub/Cycles/Decide.antt =====
-- That the search of packages/hub-core/src/flow-engine/cycle-detect.ts decides whether there is a
-- cycle.
use murrmure.Prelude.{
  ◌≡◌, ◌≢◌, ◌↔◌, refl, sym, subst, String, true, false, Option, none, some, List, [], ◌∷◌, ◌++◌,
  arith, All, eq_iff, Bool-cases, inl, inr, get_or, ◌==◌,
}
use murrmure.Dict.{string_key}
use murrmure.Hub.Cycles.{
  Graph, nodes, targets_of, Marks, Walk, search, unmarked, returned, detect_cycle_in_graph,
}
use murrmure.Hub.Sets.{has}
use murrmure.Hub.Cycles.Lasts.{lookup-nodes, search-Ends}
use murrmure.Hub.Cycles.Search.{Edge, IsWalk, IsCycle, Settled, After, Ends}

module _ (graph : Graph) where
  All-at :
      (visited targets : List String) (b : String)
      → All (λ c. has c visited ≡ true) targets
      → has b targets ≡ true
      → has b visited ≡ true
  All-at visited [] b h m = cc
  All-at visited (c ∷ targets) b h m = ground (arith, h.0, eq_iff c b, All-at visited targets b h.1)

  Settled-Edge :
      (visited : List String) (a b : String)
      → Settled graph visited
      → has a visited ≡ true
      → Edge graph a b
      → has b visited ≡ true
  Settled-Edge [] a b d m e = cc
  Settled-Edge (c ∷ visited) a b d m e = elim (Bool-cases (c == a)) [
    | inl same ↦
        let starts = subst (λ t. has b (targets_of graph t) ≡ true) (sym ((eq_iff c a).0 same)) e in
        let member = All-at visited (targets_of graph c) b d.1 starts in ground (arith, member)
    | inr other ↦
        let member = Settled-Edge visited a b d.2 (ground (arith, m, other)) e in
        ground (arith, member)
  ]

  Settled-walk :
      (visited : List String) (a b : String) (rest : List String)
      → Settled graph visited
      → has a visited ≡ true
      → IsWalk graph (a ∷ (rest ++ b ∷ []))
      → has b visited ≡ true
  Settled-walk visited a b [] d m w = Settled-Edge visited a b d m w.0
  Settled-walk visited a b (c ∷ rest) d m w =
      Settled-walk visited c b rest d (Settled-Edge visited a c d m w.0) w.1

  -- No cycle goes through a settled node.
  Settled-acyclic :
      (visited : List String) (a : String) (rest : List String)
      → Settled graph visited
      → has a visited ≡ true
      → ¬ IsWalk graph (a ∷ (rest ++ a ∷ []))
  Settled-acyclic [] a rest d m w = cc
  Settled-acyclic (c ∷ visited) a rest d m w = elim (Bool-cases (has a visited)) [
    | inl earlier ↦ Settled-acyclic visited a rest d.2 earlier w
    | inr first ↦
        let same = (eq_iff c a).0 (ground (arith, m, first)) in
        returns rest (subst (λ t. All (λ b. has b visited ≡ true) (targets_of graph t)) same d.1)
          first w
  ]
    where
      returns :
          (rest : List String)
          → All (λ b. has b visited ≡ true) (targets_of graph a)
          → has a visited ≡ false
          → ¬ IsWalk graph (a ∷ (rest ++ a ∷ []))
      returns [] h first w = let member = All-at visited (targets_of graph a) a h w.0 in cc
      returns (b ∷ rest) h first w =
          let member = All-at visited (targets_of graph a) b h w.0 in
          let again = Settled-walk visited b a rest d.2 member w.1 in cc

  -- Whoever starts a flow is a node.
  Edge-node : (a b : String) → Edge graph a b → has a (nodes graph) ≡ true
  Edge-node a b e = elim (Bool-cases (has a (nodes graph))) [
    | inl known ↦ known
    | inr unknown ↦
        let nothing = subst (λ o. has b (get_or o []) ≡ true) (lookup-nodes graph a unknown) e in cc
  ]

  first-Edge :
      (a : String) (rest : List String)
      → IsWalk graph (a ∷ (rest ++ a ∷ []))
      → has a (nodes graph) ≡ true
  first-Edge a [] w = Edge-node a a w.0
  first-Edge a (b ∷ rest) w = Edge-node a b w.0

  After-acyclic :
      (s after : Marks)
      → After graph s (nodes graph) after
      → (path : List String) → ¬ IsCycle graph path
  After-acyclic s after e path (a, rest, shape, walk) =
      let closed = subst (IsWalk graph) shape walk in
      let visited = All-at after.visited (nodes graph) a e.done (first-Edge a rest closed) in
      Settled-acyclic after.visited a rest e.inv.settled visited closed

  -- What the search returns: a cycle, or null when there is none.
  abbrev Decided : Option (Option (List String)) → Type 0
  Decided none = ⊥
  Decided (some none) = (path : List String) → ¬ IsCycle graph path
  Decided (some (some path)) = IsCycle graph path

  Ends-Decided : (s : Marks) (r : Walk) → Ends graph s (nodes graph) r → Decided (returned r)
  Ends-Decided s Walk.exhausted e = e
  Ends-Decided s (Walk.cycle path) e = e
  Ends-Decided s (Walk.clear after) e = After-acyclic s after e

  detect-Decided : Decided (detect_cycle_in_graph graph)
  unfolding detect_cycle_in_graph
  detect-Decided = Ends-Decided unmarked (search graph) (search-Ends graph)

-- On every graph the search ends within its fuel, with a cycle or with null.
pub detect_cycle_in_graph-returns : (graph : Graph) → detect_cycle_in_graph graph ≢ none
detect_cycle_in_graph-returns graph h = subst (Decided graph) h (detect-Decided graph)

-- A list that the search returns is a cycle of the graph: it has at least two entries, it ends
-- with the flow that it begins with, and each flow of it starts the next one.
pub detect_cycle_in_graph-IsCycle :
    (graph : Graph) (path : List String)
    → detect_cycle_in_graph graph ≡ some (some path)
    → IsCycle graph path
detect_cycle_in_graph-IsCycle graph path h = subst (Decided graph) h (detect-Decided graph)

-- The search returns null exactly when the graph has no cycle.
pub detect_cycle_in_graph-none_iff :
    (graph : Graph)
    → (detect_cycle_in_graph graph ≡ some none) ↔ ((path : List String) → ¬ IsCycle graph path)
detect_cycle_in_graph-none_iff graph = (
  λ h. subst (Decided graph) h (detect-Decided graph),
  λ h. only_null (detect_cycle_in_graph graph) (detect-Decided graph) h,
)
  where
    only_null :
        (r : Option (Option (List String)))
        → Decided graph r
        → ((path : List String) → ¬ IsCycle graph path)
        → r ≡ some none
    only_null none d h = absurd d
    only_null (some none) d h = refl
    only_null (some (some path)) d h = absurd (h path d)
