-- ===== src/Hub/Grants/Gives.antt =====
-- Which scopes give a capability: the table of packages/hub-core/src/grants/migrate.ts read by
-- capability.
use murrmure.Prelude.{
  ◌≡◌, refl, sym, ap, ◌∙◌, subst, String, Bool, true, false, ◌&&◌, none, List, [], ◌∷◌, arith, ◌==◌,
  eq_iff, get_or, Bool-cases, inl, inr, not,
}
use murrmure.Dict.{Dict, lookup, string_key}
use murrmure.Hub.Sets.{has}
use murrmure.Hub.Grants.{
  capability_strings, v1_scope_to_capabilities, is_inherited, scope_capabilities,
}

-- The scopes that give a capability. The scopes blob:read and blob:write give those of a space.
abbrev pub givers : Dict String (List String)
givers =
    ("hub:admin", "hub:admin" ∷ "space:admin" ∷ [])
    ∷ ("space:read", "space:read" ∷ "space:admin" ∷ "blob:read" ∷ [])
    ∷ (
      "space:write",
      "space:write" ∷ "space:admin" ∷ "flow:install" ∷ "flow:configure" ∷ "trigger:register"
          ∷ "blob:write" ∷ [],
    )
    ∷ ("space:enter", "space:enter" ∷ "space:admin" ∷ [])
    ∷ ("flow:run", "flow:run" ∷ "state:transition" ∷ [])
    ∷ ("flow:read", "flow:read" ∷ "flow:install" ∷ "flow:configure" ∷ [])
    ∷ ("journal:read", "journal:read" ∷ "event:read" ∷ [])
    ∷ ("event:emit", "event:emit" ∷ "federation:emit" ∷ [])
    ∷ ("step:resolve", "step:resolve" ∷ [])
    ∷ ("memory:read", "memory:read" ∷ [])
    ∷ ("memory:write", "memory:write" ∷ [])
    ∷ ("executor:poll", "executor:poll" ∷ [])
    ∷ []

abbrev pub gives : (scope capability : String) → Bool
gives scope c = has scope (get_or (lookup c givers) [])

-- What a scope maps to.
abbrev mapped : String → List String
mapped scope = get_or (scope_capabilities scope) []

abbrev scopes_known : List String
scopes_known =
    "blob:read" ∷ "blob:write" ∷ "event:emit" ∷ "event:read" ∷ "executor:poll" ∷ "federation:emit"
    ∷ "flow:configure" ∷ "flow:install" ∷ "flow:read" ∷ "flow:run" ∷ "hub:admin" ∷ "journal:read"
    ∷ "memory:read" ∷ "memory:write" ∷ "space:admin" ∷ "space:enter" ∷ "space:read" ∷ "space:write"
    ∷ "state:transition" ∷ "step:resolve" ∷ "trigger:register" ∷ []

abbrev same_bool : Bool → Bool → Bool
same_bool true b = b
same_bool false b = not b

abbrev holds_all : (String → Bool) → List String → Bool
holds_all p [] = true
holds_all p (x ∷ xs) = p x && holds_all p xs

abbrev agrees : String → String → Bool
agrees scope c = same_bool (has c (mapped scope)) (gives scope c)

holds_all-has :
    (p : String → Bool) (xs : List String) (x : String)
    → holds_all p xs ≡ true
    → has x xs ≡ true
    → p x ≡ true
holds_all-has p [] x all h = cc
holds_all-has p (y ∷ ys) x all h = elim (Bool-cases (y == x)) [
  | inl e ↦ subst (λ z. p z ≡ true) ((eq_iff y x).0 e) (ground (arith, all))
  | inr n ↦ holds_all-has p ys x (ground (arith, all)) (ground (arith, h, n))
]

-- Each known scope and each capability, one by one.
table : holds_all (λ scope. holds_all (agrees scope) capability_strings) scopes_known ≡ true
unfolding lookup scope_capabilities is_inherited
table = refl

only_capabilities :
    holds_all (λ scope. holds_all (λ c. has c capability_strings) (mapped scope)) scopes_known
    ≡ true
unfolding scope_capabilities is_inherited lookup
only_capabilities = refl

-- What is not in the whole is not in a part of it.
outside :
    (x : String) (part whole : List String)
    → holds_all (λ y. has y whole) part ≡ true
    → has x whole ≡ false
    → has x part ≡ false
outside x part whole all h = elim (Bool-cases (has x part)) [
  | inl y ↦
      let found = holds_all-has (λ z. has z whole) part x all y in absurd (ground (arith, found, h))
  | inr n ↦ n
]

abbrev names : Dict String (List String) → List String
names [] = []
names ((k, v) ∷ m) = k ∷ names m

absent : (k : String) (m : Dict String (List String)) → has k (names m) ≡ false → lookup k m ≡ none
unfolding lookup
absent k [] h = refl
absent k ((j, v) ∷ m) h = ground (arith, h, absent k m)

-- A scope that is in no list of a table of lists.
abbrev within : List String → Dict String (List String) → Bool
within whole [] = true
within whole ((k, v) ∷ m) = holds_all (λ y. has y whole) v && within whole m

within-lookup :
    (whole : List String) (m : Dict String (List String)) (scope c : String)
    → within whole m ≡ true
    → has scope whole ≡ false
    → has scope (get_or (lookup c m) []) ≡ false
unfolding lookup
within-lookup whole [] scope c all h = refl
within-lookup whole ((k, v) ∷ m) scope c all h = elim (Bool-cases (k == c)) [
  | inl y ↦ rw y (outside scope v whole (ground (arith, all)) h)
  | inr n ↦ rw n (within-lookup whole m scope c (ground (arith, all)) h)
]

same_bool_eq : (a b : Bool) → same_bool a b ≡ true → a ≡ b
same_bool_eq true b h = sym h
same_bool_eq false true h = cc
same_bool_eq false false h = refl

-- A scope that the table does not know maps to nothing.
mapped-unknown : (scope : String) → has scope scopes_known ≡ false → mapped scope ≡ []
unfolding scope_capabilities
mapped-unknown scope h =
    let no_row =
      absent scope v1_scope_to_capabilities
        (outside scope (names v1_scope_to_capabilities) scopes_known refl h) in
    let no_capability = outside scope capability_strings scopes_known refl h in
    elim (Bool-cases (is_inherited scope)) [
      | inl y ↦ rw y refl
      | inr n ↦ rw n (rw (no_row, no_capability) refl)
    ]

pub scope_capabilities-gives :
    (scope c : String) → has c (get_or (scope_capabilities scope) []) ≡ gives scope c
scope_capabilities-gives scope c = elim (Bool-cases (has scope scopes_known)) [
  | inr unknown ↦
      ap (has c) (mapped-unknown scope unknown)
      ∙ sym (within-lookup scopes_known givers scope c refl unknown)
  | inl known ↦ elim (Bool-cases (has c capability_strings)) [
    | inl capability ↦ same_bool_eq _ _ (
        holds_all-has (agrees scope) capability_strings c
          (holds_all-has (λ s. holds_all (agrees s) capability_strings) scopes_known scope table
            known)
          capability)
    | inr other ↦
        let none_given = absent c givers (outside c (names givers) capability_strings refl other) in
        outside c (mapped scope) capability_strings
          (holds_all-has (λ s. holds_all (λ x. has x capability_strings) (mapped s)) scopes_known
            scope only_capabilities known)
          other
        ∙ ap (λ o. has scope (get_or o [])) (sym none_given)
  ]
]
