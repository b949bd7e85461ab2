-- ===== src/Hub/Policy.antt =====
-- The policy port of the hub: packages/hub-core/src/ports/policy.ts.
pub mod Harness
pub mod Required
pub mod Permits
pub mod Gate
use murrmure.Prelude.{
  String, Bool, true, false, not, ◌&&◌, Option, none, some, List, [], ◌∷◌, if◌then◌else◌, ◌==◌,
  template, non_empty, opt_str_eq,
}
use murrmure.Dict.{Dict, lookup, string_key}
use murrmure.Json.{Value, undefined, str, Fields, get, truthy, strict_eq}
use murrmure.Contracts.Results.{Provenance, ActorKind}
use murrmure.Kernel.World.{PolicyResult}
use murrmure.Hub.Ids.{strip_prefix}
use murrmure.Hub.Grants.{resolve_effective_capabilities, has_capability}

pub data TokenStatus : Type 0 where
  active revoked : TokenStatus

-- The fields of a TokenRow that the port reads; the others are actor_id, flow_acl, expires_at,
-- scope_ref and consumer_space_id.
pub record TokenRow : Type 0 where
  pub token_id : String
  pub space_id : String
  pub scopes : List String
  pub capabilities : Option (List String)
  pub harness_id : Option String
  pub status : TokenStatus

pub record CommandContext : Type 0 where
  pub provenance : Provenance
  pub command_kind : String
  pub payload : Option Fields

-- CAPABILITY_MAP. The kinds of a command are not names that objects inherit.
abbrev pub capability_map : Dict String String
capability_map =
    ("space.create", "hub:admin")
    ∷ ("instance.create", "flow:run")
    ∷ ("aggregate.create", "flow:run")
    ∷ ("state.transition", "flow:run")
    ∷ ("gate.resolve", "flow:run")
    ∷ ("event.append", "event:emit")
    ∷ ("wait.register", "space:read")
    ∷ ("wait.cancel", "space:read")
    ∷ ("grant.mint", "hub:admin")
    ∷ ("grant.revoke", "hub:admin")
    ∷ ("trigger.register", "space:write")
    ∷ ("trigger.schedule", "space:write")
    ∷ ("blob.write", "space:write")
    ∷ ("query.ask", "space:read")
    ∷ ("query.answer", "space:read")
    ∷ ("federation.emit", "hub:admin")
    ∷ ("instance.metadata.patch", "flow:run")
    ∷ []

unfoldable pub required_capability : String → Option String
unfolding lookup
required_capability kind = lookup kind capability_map

-- `retryable` is false in every denial.
abbrev pub deny : String → String → PolicyResult
deny code message = record {
  allowed = false;
  denial_code = some code;
  denial_message = some message;
}

abbrev pub allow : PolicyResult
allow = record { allowed = true; denial_code = none; denial_message = none }

abbrev pub token_denied : String
token_denied = "token_denied"

abbrev pub scope_enforcement_failure : String
scope_enforcement_failure = "scope_enforcement_failure"

abbrev pub harness_mismatch : String
harness_mismatch = "harness_mismatch"

abbrev pub is_active : TokenStatus → Bool
is_active active = true
is_active revoked = false

abbrev pub is_agent : Option ActorKind → Bool
is_agent (some ActorKind.agent) = true
is_agent _ = false

-- The token is for another space.
unfoldable pub out_of_scope : TokenRow → String → Bool
out_of_scope token scope_id =
    not (token.space_id == "bootstrap") && not (token.space_id == scope_id)

unfoldable pub is_human_only : TokenRow → CommandContext → Bool
is_human_only token ctx =
    opt_str_eq token.harness_id (some "human_only") && is_agent ctx.provenance.actor_kind

abbrev pub harness_claim : Option Fields → Value
harness_claim none = undefined
harness_claim (some payload) = get "harness" payload

abbrev pub claims_other : Option String → Value → Bool
claims_other none claim = false
claims_other (some harness_id) claim = truthy claim && not (strict_eq claim (str harness_id))

unfoldable pub is_other_harness : TokenRow → CommandContext → Bool
is_other_harness token ctx =
    is_agent ctx.provenance.actor_kind
    && claims_other (non_empty token.harness_id) (harness_claim ctx.payload)

abbrev pub check_required : List String → Option String → PolicyResult
check_required effective none = allow
check_required effective (some required) =
    if has_capability effective (required ∷ [])
    then allow
    else deny token_denied (template ("Missing capability: " ∷ required ∷ []))

abbrev pub check_capability : Option (List String) → String → Option PolicyResult
check_capability none kind = none
check_capability (some effective) kind = some (check_required effective (required_capability kind))

abbrev pub evaluate_token : Option TokenRow → CommandContext → Option PolicyResult
evaluate_token none ctx = some (deny token_denied "Invalid or revoked token")
evaluate_token (some token) ctx =
    if not (is_active token.status)
    then some (deny token_denied "Invalid or revoked token")
    else if out_of_scope token ctx.provenance.scope_id
    then some (deny scope_enforcement_failure "Token not scoped to this space")
    else if is_human_only token ctx
    then some (deny harness_mismatch "Agent token cannot act in human_only harness")
    else if is_other_harness token ctx
    then some (deny harness_mismatch "Harness mismatch")
    else check_capability (resolve_effective_capabilities token.scopes token.capabilities)
        ctx.command_kind

-- `evaluate`, with the tokens of the store; none stands for an exception.
unfoldable pub evaluate : Dict String TokenRow → CommandContext → Option PolicyResult
evaluate tokens ctx = evaluate_token (lookup ctx.provenance.credential_id tokens) ctx

abbrev pub check_path : Option TokenRow → String → PolicyResult
check_path none bare_path = deny token_denied "Unknown token"
check_path (some token) bare_path =
    if out_of_scope token bare_path
    then deny scope_enforcement_failure "Path space does not match token scope"
    else allow

unfoldable pub enforce_space_path : Dict String TokenRow → String → String → PolicyResult
enforce_space_path tokens path_space_id token_id =
    check_path (lookup (strip_prefix token_id) tokens) (strip_prefix path_space_id)
