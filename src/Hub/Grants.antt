-- ===== src/Hub/Grants.antt =====
-- Capabilities of grants: packages/hub-core/src/grants/migrate.ts, and the list of
-- packages/contracts/src/grants/capability.ts.
pub mod Gives
pub mod Laws
use murrmure.Prelude.{
  String, Bool, true, ◌||◌, Option, none, some, List, [], ◌∷◌, ◌++◌, if◌then◌else◌, fold, exists,
  is_some, get_or,
}
use murrmure.Dict.{Dict, lookup, string_key}
use murrmure.Hub.Sets.{has, add, distinct}

abbrev pub capability_strings : List String
capability_strings =
    "space:read" ∷ "space:write" ∷ "space:enter" ∷ "flow:read" ∷ "flow:run" ∷ "event:emit"
    ∷ "step:resolve" ∷ "journal:read" ∷ "blob:read" ∷ "blob:write" ∷ "memory:read" ∷ "memory:write"
    ∷ "executor:poll" ∷ "hub:admin" ∷ []

abbrev pub v1_scope_to_capabilities : Dict String (List String)
v1_scope_to_capabilities =
    ("space:read", "space:read" ∷ [])
    ∷ ("space:enter", "space:enter" ∷ [])
    ∷ ("space:admin", "hub:admin" ∷ "space:read" ∷ "space:write" ∷ "space:enter" ∷ [])
    ∷ ("state:transition", "flow:run" ∷ [])
    ∷ ("event:read", "journal:read" ∷ [])
    ∷ ("event:emit", "event:emit" ∷ [])
    ∷ ("flow:install", "space:write" ∷ "flow:read" ∷ [])
    ∷ ("flow:configure", "space:write" ∷ "flow:read" ∷ [])
    ∷ ("trigger:register", "space:write" ∷ [])
    ∷ ("blob:read", "space:read" ∷ [])
    ∷ ("blob:write", "space:write" ∷ [])
    ∷ ("federation:emit", "event:emit" ∷ [])
    ∷ []

-- The names that every JavaScript object inherits.
abbrev pub inherited_names : List String
inherited_names =
    "constructor" ∷ "hasOwnProperty" ∷ "isPrototypeOf" ∷ "propertyIsEnumerable" ∷ "toLocaleString"
    ∷ "toString" ∷ "valueOf" ∷ "__proto__" ∷ "__defineGetter__" ∷ "__defineSetter__"
    ∷ "__lookupGetter__" ∷ "__lookupSetter__" ∷ []

unfoldable pub is_inherited : String → Bool
is_inherited scope = has scope inherited_names

-- The capabilities that a scope adds; the value under an inherited name is no array, so that the
-- loop over it throws.
unfoldable pub scope_capabilities : String → Option (List String)
unfolding lookup
scope_capabilities scope =
    let mapped = if has scope capability_strings then scope ∷ [] else [] in
    if is_inherited scope
    then none
    else some (get_or (lookup scope v1_scope_to_capabilities) mapped)

abbrev pub add_all : Option (List String) → List String → Option (List String)
add_all none out = none
add_all (some mapped) out = some (fold add out mapped)

abbrev pub add_scope : Option (List String) → String → Option (List String)
add_scope none scope = none
add_scope (some out) scope = add_all (scope_capabilities scope) out

-- none stands for the exception.
unfoldable pub map_v1_scopes_to_capabilities : List String → Option (List String)
map_v1_scopes_to_capabilities scopes = fold add_scope (some []) scopes

pub record Partition : Type 0 where
  pub valid : List String
  pub invalid : List String

-- `in` finds inherited names too.
unfoldable pub is_known : String → Bool
unfolding lookup
is_known scope =
    is_inherited scope
    || is_some (lookup scope v1_scope_to_capabilities)
    || has scope capability_strings

abbrev pub partition_scope : Partition → String → Partition
partition_scope p scope =
    if is_known scope
    then record { valid = p.valid ++ scope ∷ []; invalid = p.invalid }
    else record { valid = p.valid; invalid = p.invalid ++ scope ∷ [] }

-- The scopes are texts.
unfoldable pub partition_scopes : List String → Partition
partition_scopes scopes = fold partition_scope (record { valid = []; invalid = [] }) scopes

abbrev pub given_or_mapped : List String → Option (List String) → Option (List String)
given_or_mapped scopes none = map_v1_scopes_to_capabilities scopes
given_or_mapped scopes (some []) = map_v1_scopes_to_capabilities scopes
given_or_mapped scopes (some (c ∷ capabilities)) = some (distinct (c ∷ capabilities))

unfoldable pub resolve_effective_capabilities :
    List String → Option (List String) → Option (List String)
resolve_effective_capabilities scopes capabilities = given_or_mapped scopes capabilities

-- A single required capability is a list of one.
unfoldable pub has_capability : List String → List String → Bool
has_capability effective required =
    if has "hub:admin" effective then true else exists (λ cap. has cap effective) required

abbrev pub can_start_flow : List String → Bool
can_start_flow capabilities = has_capability capabilities ("flow:run" ∷ [])

abbrev pub can_resolve_gate : List String → Bool
can_resolve_gate capabilities = has_capability capabilities ("flow:run" ∷ [])
