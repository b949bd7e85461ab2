-- ===== src/Hub/Cycles/Lasts.antt =====
-- That the search of packages/hub-core/src/flow-engine/cycle-detect.ts comes to its end.
use murrmure.Prelude.{
  ℕ, zero, suc, ◌<◌, ◌≡◌, refl, sym, ◌∙◌, String, true, false, none, List, [], ◌∷◌, ◌++◌, arith,
  All, All-map, eq_refl, length, Bool-cases, inl, inr,
}
use murrmure.Dict.{lookup, string_key}
use murrmure.Hub.Cycles.{Graph, nodes, targets_of, Marks, each, enter, dfs, search, unmarked}
use murrmure.Hub.Cycles.Lists.{unmarked_in, unmarked_in-mark, unmarked_in-length}
use murrmure.Hub.Sets.{has}
use murrmure.Hub.Cycles.Search.{
  Edge, IsWalk, IsWalk-snoc, Inv, Ends, closing-IsCycle, each-Ends, enter-Inv, leave-Ends,
}

pub lookup-nodes :
    (graph : Graph) (a : String) → has a (nodes graph) ≡ false → lookup a graph ≡ none
unfolding lookup
lookup-nodes [] a h = refl
lookup-nodes ((b, targets) ∷ graph) a h = ground (arith, lookup-nodes graph a)

All-has : (xs : List String) → All (λ a. has a xs ≡ true) xs
All-has [] = tt
All-has (x ∷ xs) = (rw (eq_refl x) refl, All-map _ _ (λ a m. ground (arith, m)) xs (All-has xs))

module _ (graph : Graph) where
  walks_below :
      (path : List String) (a : String)
      → IsWalk graph (path ++ a ∷ [])
      → (targets : List String) → All (Edge graph a) targets
      → All (λ b. IsWalk graph ((path ++ a ∷ []) ++ b ∷ [])) targets
  walks_below path a w [] edges = tt
  walks_below path a w (b ∷ targets) edges =
      (IsWalk-snoc graph path a b w edges.0, walks_below path a w targets edges.1)

  -- With this fuel, the search below a node comes to its end.
  abbrev Lasts : ℕ → Type 0
  Lasts fuel =
      (a : String) (s : Marks)
      → Inv graph s
      → IsWalk graph (s.path ++ a ∷ [])
      → unmarked_in s.visiting (nodes graph) < fuel
      → Ends graph s (a ∷ []) (dfs graph fuel a s)

  below-Ends :
      (fuel : ℕ)
      → Lasts fuel
      → (a : String) (s : Marks) → Inv graph s
      → IsWalk graph (s.path ++ a ∷ [])
      → unmarked_in s.visiting (nodes graph) < suc fuel
      → has a s.visiting ≡ false
      → has a s.visited ≡ false
      → Ends graph
          (enter a s)
          (targets_of graph a)
          (each (dfs graph fuel) (targets_of graph a) (enter a s))
  below-Ends fuel ih a s inv w f new fresh = elim (Bool-cases (has a (nodes graph))) [
    | inl known ↦
        let marked = unmarked_in-mark a s.visiting (nodes graph) known new in
        each-Ends graph (dfs graph fuel) (a ∷ s.visiting)
          (λ b t i same walk. ih b t i walk (rw same (omega (arith, marked)))) (targets_of graph a)
          (enter a s) (enter-Inv graph a s inv fresh) refl
          (walks_below s.path a w (targets_of graph a) (All-has (targets_of graph a)))
    | inr unknown ↦ rw (lookup-nodes graph a unknown) (record {
      inv = enter-Inv graph a s inv fresh;
      same_visiting = refl;
      same_path = refl;
      grows = λ b m. m;
      done = tt;
    })
  ]

  dfs-Ends : (fuel : ℕ) → Lasts fuel
  unfolding dfs
  dfs-Ends zero a s inv w f = absurd (omega arith)
  dfs-Ends (suc fuel) a s inv w f = elim (Bool-cases (has a s.visiting)) [
    | inl active ↦ rw active (closing-IsCycle graph s.path a (sym (inv.same a) ∙ active) w)
    | inr new ↦ elim (Bool-cases (has a s.visited)) [
      | inl seen ↦
          rw (new, seen)
            (record {
              inv = inv;
              same_visiting = refl;
              same_path = refl;
              grows = λ b m. m;
              done = (seen, tt);
            })
      | inr fresh ↦
          rw (new, fresh)
            (leave-Ends graph a s _ inv new (below-Ends fuel (dfs-Ends fuel) a s inv w f new fresh))
    ]
  ]

  unmarked-Inv : Inv graph unmarked
  unmarked-Inv = record { settled = tt; same = λ a. refl; apart = λ a h. cc }

  pub search-Ends : Ends graph unmarked (nodes graph) (search graph)
  unfolding search
  search-Ends =
      each-Ends graph (dfs graph (suc (length (nodes graph)))) []
        (λ a s inv same walk.
          dfs-Ends _ a s inv walk (rw same (omega (arith, unmarked_in-length (nodes graph)))))
        (nodes graph) unmarked unmarked-Inv refl (each_alone (nodes graph))
    where
      each_alone : (xs : List String) → All (λ a. IsWalk graph (a ∷ [])) xs
      each_alone [] = tt
      each_alone (x ∷ xs) = (tt, each_alone xs)
