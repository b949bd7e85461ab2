-- ===== src/Hub/Grants/Laws.antt =====
-- What the capabilities of a grant allow: packages/hub-core/src/grants/migrate.ts.
use murrmure.Prelude.{
  ◌≡◌, ◌≢◌, refl, sym, ap, ◌∙◌, subst, String, Bool, true, false, ◌||◌, not, Option, none, some,
  List, [], ◌∷◌, if◌then◌else◌, arith, fold, exists, is_some, get_or, Bool-cases, inl, inr,
  Option-cases,
}
use murrmure.Dict.{string_key}
use murrmure.Hub.Sets.{has, add, has-fold-add, has-distinct}
use murrmure.Hub.Grants.Gives.{gives, scope_capabilities-gives}
use murrmure.Hub.Grants.{
  is_inherited, scope_capabilities, add_scope, map_v1_scopes_to_capabilities,
  resolve_effective_capabilities, has_capability,
}

fold-none : (scopes : List String) → fold add_scope none scopes ≡ none
fold-none [] = refl
fold-none (scope ∷ scopes) = fold-none scopes

-- A scope, on its own, adds this capability.
abbrev pub adds : String → String → Bool
adds c scope = gives scope c

scope_capabilities-inherited :
    (scope : String) → is_some (scope_capabilities scope) ≡ not (is_inherited scope)
unfolding scope_capabilities
scope_capabilities-inherited scope = elim (Bool-cases (is_inherited scope)) [
  | inl y ↦ rw y refl
  | inr n ↦ rw n refl
]

or_assoc : (a b c : Bool) → ((a || b) || c) ≡ (a || (b || c))
or_assoc a b c = ground arith

or_false : (a b : Bool) → (a || b) ≡ false → (a ≡ false) × (b ≡ false)
or_false a b h = ground arith

not_inherited :
    (scope : String)
    → is_inherited scope ≡ false
    → (mapped : List String) × (scope_capabilities scope ≡ some mapped)
not_inherited scope h = elim (Option-cases (scope_capabilities scope)) [
  | inl e ↦ let given = scope_capabilities-inherited scope in absurd (ground (arith, given, h, e))
  | inr (mapped, e) ↦ (mapped, e)
]

-- The capabilities that the scopes map to, one by one.
abbrev pub Maps : List String → List String → Option (List String) → Type 0
Maps scopes out none = ⊥
Maps scopes out (some caps) = (c : String) → has c caps ≡ (has c out || exists (adds c) scopes)

fold-Maps :
    (scopes out : List String)
    → exists is_inherited scopes ≡ false
    → Maps scopes out (fold add_scope (some out) scopes)
fold-Maps [] out h = λ c. ground arith
fold-Maps (scope ∷ scopes) out h =
    let (first, others) = or_false (is_inherited scope) (exists is_inherited scopes) h in
    let (mapped, e) = not_inherited scope first in
    rw e (
      step mapped e (fold add_scope (some (fold add out mapped)) scopes)
        (fold-Maps scopes (fold add out mapped) others))
  where
    step :
        (mapped : List String)
        → scope_capabilities scope ≡ some mapped
        → (r : Option (List String)) → Maps scopes (fold add out mapped) r
        → Maps (scope ∷ scopes) out r
    step mapped e none m = m
    step mapped e (some caps) m = λ c.
        m c
        ∙ ap (λ h. h || exists (adds c) scopes) (has-fold-add c mapped out)
        ∙ or_assoc (has c out) (has c mapped) (exists (adds c) scopes)
        ∙ ap (λ o. has c out || (has c (get_or o []) || exists (adds c) scopes)) (sym e)
        ∙ ap (λ b. has c out || (b || exists (adds c) scopes)) (scope_capabilities-gives scope c)

fold-inherited :
    (scopes : List String) (out : List String)
    → exists is_inherited scopes ≡ true
    → fold add_scope (some out) scopes ≡ none
fold-inherited [] out h = cc
fold-inherited (scope ∷ scopes) out h = elim (Option-cases (scope_capabilities scope)) [
  | inl e ↦ rw e (fold-none scopes)
  | inr (mapped, e) ↦
      let clean = ap is_some (sym e) ∙ scope_capabilities-inherited scope in
      rw e (fold-inherited scopes (fold add out mapped) (ground (arith, h, clean)))
]

-- When no scope is the name of a member that every object inherits, the scopes are mapped, and the
-- capabilities are exactly those that one of the scopes gives.
pub map_v1_scopes_to_capabilities-gives :
    (scopes : List String)
    → exists is_inherited scopes ≡ false
    → (effective : List String) × (map_v1_scopes_to_capabilities scopes ≡ some effective)
      × ((c : String) → has c effective ≡ exists (λ scope. gives scope c) scopes)
unfolding map_v1_scopes_to_capabilities
map_v1_scopes_to_capabilities-gives scopes clean =
    mapped (fold add_scope (some []) scopes) refl (fold-Maps scopes [] clean)
  where
    mapped :
        (o : Option (List String))
        → fold add_scope (some []) scopes ≡ o
        → Maps scopes [] o
        → (effective : List String) × (fold add_scope (some []) scopes ≡ some effective)
          × ((c : String) → has c effective ≡ exists (λ scope. gives scope c) scopes)
    mapped none e m = absurd m
    mapped (some effective) e m = (effective, e, m)

map-holds :
    (scopes effective : List String) (c : String)
    → map_v1_scopes_to_capabilities scopes ≡ some effective
    → has c effective ≡ exists (λ scope. gives scope c) scopes
unfolding map_v1_scopes_to_capabilities
map-holds scopes effective c h = elim (Bool-cases (exists is_inherited scopes)) [
  | inl y ↦ absurd (never (sym h ∙ fold-inherited scopes [] y))
  | inr n ↦ subst (Maps scopes []) h (fold-Maps scopes [] n) c
]
  where
    never : some effective ≢ none
    never e = cc

-- Whether a grant holds a capability: by its own list, or when that is absent or empty, by its
-- scopes.
abbrev pub holds : List String → Option (List String) → String → Bool
holds scopes none c = exists (adds c) scopes
holds scopes (some []) c = exists (adds c) scopes
holds scopes (some (d ∷ capabilities)) c = has c (d ∷ capabilities)

resolve-holds :
    (scopes : List String) (capabilities : Option (List String)) (effective : List String)
    → resolve_effective_capabilities scopes capabilities ≡ some effective
    → (c : String) → has c effective ≡ holds scopes capabilities c
unfolding resolve_effective_capabilities
resolve-holds scopes none effective h = λ c. map-holds scopes effective c h
resolve-holds scopes (some []) effective h = λ c. map-holds scopes effective c h
resolve-holds scopes (some (d ∷ capabilities)) effective h =
    λ c. ap (λ o. has c (get_or o [])) (sym h) ∙ has-distinct c (d ∷ capabilities)

exists-same :
    (p q : String → Bool) (xs : List String)
    → ((x : String) → p x ≡ q x)
    → exists p xs ≡ exists q xs
exists-same p q [] h = refl
exists-same p q (x ∷ xs) h = ground (arith, h x, exists-same p q xs h)

-- A grant whose capabilities could be resolved passes the test of a required list exactly when it
-- holds hub:admin or one of the list.
pub has_capability-holds :
    (scopes : List String) (capabilities : Option (List String)) (effective required : List String)
    → resolve_effective_capabilities scopes capabilities ≡ some effective
    → has_capability effective required
      ≡ (holds scopes capabilities "hub:admin" || exists (holds scopes capabilities) required)
unfolding has_capability
has_capability-holds scopes capabilities effective required h =
    let each = resolve-holds scopes capabilities effective h in
    rw (each "hub:admin") (
      either (holds scopes capabilities "hub:admin") (exists (λ c. has c effective) required)
      ∙ ap (λ b. holds scopes capabilities "hub:admin" || b) (exists-same _ _ required each))
  where
    either : (a b : Bool) → (if a then true else b) ≡ (a || b)
    either true b = refl
    either false b = refl
