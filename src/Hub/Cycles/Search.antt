-- ===== src/Hub/Cycles/Search.antt =====
-- The invariant of the search of packages/hub-core/src/flow-engine/cycle-detect.ts.
use murrmure.Prelude.{
  ℕ, suc, ◌≡◌, refl, sym, ap, ◌∙◌, subst, String, true, false, some, List, [], ◌∷◌, ◌++◌, arith,
  All, eq_iff, Bool-cases, inl, inr, ◌==◌,
}
use murrmure.Dict.{string_key}
use murrmure.Hub.Cycles.{
  Graph, targets_of, Marks, Walk, each, closing, closing_from, enter, leave, and_then,
}
use murrmure.Hub.Cycles.Lists.{delete, index_of, drop, pop, pop-snoc, delete-head}
use murrmure.Hub.Sets.{has, has-snoc}

module _ (graph : Graph) where
  -- A flow that starts another one.
  abbrev pub Edge : String → String → Type 0
  Edge a b = has b (targets_of graph a) ≡ true

  -- Each flow of the list starts the next one.
  abbrev pub IsWalk : List String → Type 0
  IsWalk [] = Unit
  IsWalk (a ∷ []) = Unit
  IsWalk (a ∷ b ∷ path) = Edge a b × IsWalk (b ∷ path)

  abbrev pub IsCycle : List String → Type 0
  IsCycle path = (a : String) × (rest : List String) × (path ≡ a ∷ (rest ++ a ∷ [])) × IsWalk path

  -- The flows of the list, latest first, each start only flows that come later in the list.
  abbrev pub Settled : List String → Type 0
  Settled [] = Unit
  Settled (a ∷ visited) =
      (has a visited ≡ false)
      × All (λ b. has b visited ≡ true) (targets_of graph a)
      × Settled visited

  pub record Inv (s : Marks) : Type 0 where
    pub settled : Settled s.visited
    pub same : (a : String) → has a s.visiting ≡ has a s.path
    pub apart : (a : String) → has a s.visiting ≡ true → has a s.visited ≡ false

  -- What holds when the search below `targets` returns null.
  pub record After (s : Marks) (targets : List String) (after : Marks) : Type 0 where
    pub inv : Inv after
    pub same_visiting : after.visiting ≡ s.visiting
    pub same_path : after.path ≡ s.path
    pub grows : (a : String) → has a s.visited ≡ true → has a after.visited ≡ true
    pub done : All (λ a. has a after.visited ≡ true) targets

  abbrev pub Ends : Marks → List String → Walk → Type 0
  Ends s targets Walk.exhausted = ⊥
  Ends s targets (Walk.cycle path) = IsCycle path
  Ends s targets (Walk.clear after) = After s targets after

  IsWalk-tail : (a : String) (path : List String) → IsWalk (a ∷ path) → IsWalk path
  IsWalk-tail a [] w = tt
  IsWalk-tail a (b ∷ path) w = w.1

  pub IsWalk-snoc :
      (path : List String) (a b : String)
      → IsWalk (path ++ a ∷ [])
      → Edge a b
      → IsWalk ((path ++ a ∷ []) ++ b ∷ [])
  IsWalk-snoc [] a b w e = (e, tt)
  IsWalk-snoc (c ∷ []) a b w e = (w.0, (e, tt))
  IsWalk-snoc (c ∷ d ∷ path) a b w e = (w.0, IsWalk-snoc (d ∷ path) a b w.1 e)

  closing_lem :
      (path : List String) (a : String)
      → has a path ≡ true
      → IsWalk (path ++ a ∷ [])
      → (i : ℕ) × (rest : List String) × (index_of a path ≡ some i)
        × (drop i path ≡ a ∷ rest)
        × IsWalk (a ∷ (rest ++ a ∷ []))
  closing_lem [] a h w = cc
  closing_lem (b ∷ path) a h w = elim (Bool-cases (b == a)) [
    | inl e ↦
        let same = (eq_iff b a).0 e in
        (
          0,
          path,
          rw e refl,
          ap (λ c. c ∷ path) same,
          subst (λ c. IsWalk (c ∷ (path ++ a ∷ []))) same w,
        )
    | inr e ↦
        let (i, rest, found, dropped, walk) =
          closing_lem path a (ground (arith, h, e)) (IsWalk-tail b (path ++ a ∷ []) w) in
        (suc i, rest, rw (e, found) refl, dropped, walk)
  ]

  pub closing-IsCycle :
      (path : List String) (a : String)
      → has a path ≡ true
      → IsWalk (path ++ a ∷ [])
      → IsCycle (closing path a)
  closing-IsCycle path a h w =
      let (i, rest, found, dropped, walk) = closing_lem path a h w in
      subst IsCycle (sym (ap (λ o. closing_from o path a) found ∙ ap (λ l. l ++ a ∷ []) dropped))
        (a, rest, refl, walk)

  -- A step of the loop: the search below one target, then below the others.
  each-next :
      (f : String → Marks → Walk) (s : Marks) (a : String) (targets : List String) (r : Walk)
      → Ends s (a ∷ []) r
      → ((after : Marks) → After s (a ∷ []) after → Ends after targets (each f targets after))
      → Ends s (a ∷ targets) (and_then r (each f targets))
  each-next f s a targets Walk.exhausted e k = e
  each-next f s a targets (Walk.cycle path) e k = e
  each-next f s a targets (Walk.clear after) e k = joined (each f targets after) (k after e)
    where
      joined : (r : Walk) → Ends after targets r → Ends s (a ∷ targets) r
      joined Walk.exhausted h = h
      joined (Walk.cycle path) h = h
      joined (Walk.clear last) h = record {
        inv = h.inv;
        same_visiting = h.same_visiting ∙ e.same_visiting;
        same_path = h.same_path ∙ e.same_path;
        grows = λ b m. h.grows b (e.grows b m);
        done = (h.grows a e.done.0, h.done);
      }

  pub each-Ends :
      (f : String → Marks → Walk) (visiting : List String)
      → ((a : String) (s : Marks)
          → Inv s
          → s.visiting ≡ visiting
          → IsWalk (s.path ++ a ∷ [])
          → Ends s (a ∷ []) (f a s))
      → (targets : List String) (s : Marks) → Inv s
      → s.visiting ≡ visiting
      → All (λ a. IsWalk (s.path ++ a ∷ [])) targets
      → Ends s targets (each f targets s)
  each-Ends f visiting h [] s inv same walks = record {
    inv = inv;
    same_visiting = refl;
    same_path = refl;
    grows = λ a m. m;
    done = tt;
  }
  each-Ends f visiting h (a ∷ targets) s inv same walks =
      each-next f s a targets (f a s) (h a s inv same walks.0) λ after e.
        each-Ends f visiting h targets after e.inv (e.same_visiting ∙ same)
          (subst (λ path. All (λ b. IsWalk (path ++ b ∷ [])) targets) (sym e.same_path) walks.1)

  pub enter-Inv : (a : String) (s : Marks) → Inv s → has a s.visited ≡ false → Inv (enter a s)
  enter-Inv a s inv new = record {
    settled = inv.settled;
    same = λ b. ground (arith, has-snoc b a s.path, inv.same b);
    apart = λ b. ground (arith, inv.apart b, eq_iff a b, new);
  }

  -- A node is visited when the search below it has returned null.
  leave-After :
      (a : String) (s after : Marks)
      → Inv s
      → has a s.visiting ≡ false
      → After (enter a s) (targets_of graph a) after
      → After s (a ∷ []) (leave a after)
  leave-After a s after inv new e = record {
    inv = record {
      settled = (fresh, e.done, e.inv.settled);
      same = λ b. rw (visiting, path) (inv.same b);
      apart = λ b. rw visiting (λ m. ground (arith, m, new, eq_iff a b, apart b m));
    };
    same_visiting = visiting;
    same_path = path;
    grows = λ b m. ground (arith, e.grows b m);
    done = (ground (arith, eq_iff a a), tt);
  }
    where
      visiting : delete a after.visiting ≡ s.visiting
      visiting = ap (delete a) e.same_visiting ∙ delete-head a s.visiting new

      path : pop after.path ≡ s.path
      path = ap pop e.same_path ∙ pop-snoc s.path a

      apart : (b : String) → has b s.visiting ≡ true → has b after.visited ≡ false
      apart b m = e.inv.apart b (rw e.same_visiting (ground (arith, m)))

      fresh : has a after.visited ≡ false
      fresh = e.inv.apart a (rw e.same_visiting (ground (arith, eq_iff a a)))

  pub leave-Ends :
      (a : String) (s : Marks) (r : Walk)
      → Inv s
      → has a s.visiting ≡ false
      → Ends (enter a s) (targets_of graph a) r
      → Ends s (a ∷ []) (and_then r (λ after. Walk.clear (leave a after)))
  leave-Ends a s Walk.exhausted inv new e = e
  leave-Ends a s (Walk.cycle path) inv new e = e
  leave-Ends a s (Walk.clear after) inv new e = leave-After a s after inv new e
