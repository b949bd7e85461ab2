-- ===== src/Hub/Policy/Permits.antt =====
-- Which commands packages/hub-core/src/ports/policy.ts allows.
use murrmure.Prelude.{
  ◌≡◌, refl, ap, ◌∙◌, subst, String, Bool, true, false, not, ◌&&◌, ◌||◌, Option, none, some, List,
  [], ◌∷◌, if◌then◌else◌, arith, ◌==◌,
}
use murrmure.Dict.{Dict, lookup, string_key}
use murrmure.Kernel.World.{PolicyResult}
use murrmure.Hub.Grants.{resolve_effective_capabilities}
use murrmure.Hub.Grants.Laws.{holds, has_capability-holds}
use murrmure.Hub.Policy.{
  TokenStatus, active, revoked, TokenRow, CommandContext, required_capability, is_active,
  out_of_scope, is_human_only, is_other_harness, check_required, check_capability, evaluate_token,
  evaluate,
}
use murrmure.Hub.Policy.Harness.{harness_allows, harness_allows_lem}
use murrmure.Hub.Policy.Required.{required_for, required_for_lem}

abbrev pub holds_required : TokenRow → Option String → Bool
holds_required token none = true
holds_required token (some required) =
    holds token.scopes token.capabilities "hub:admin"
    || holds token.scopes token.capabilities required

-- The token is active, it is for the space or for the bootstrap space, its harness allows the
-- actor, and it holds hub:admin or the capability that is required.
abbrev pub token_permits : TokenRow → CommandContext → (required : Option String) → Bool
token_permits token ctx required =
    (elim token.status [ active ↦ true | revoked ↦ false ])
    && ((token.space_id == "bootstrap") || (token.space_id == ctx.provenance.scope_id))
    && harness_allows token.harness_id ctx.provenance.actor_kind ctx.payload
    && holds_required token required

abbrev pub permits : Option TokenRow → CommandContext → (required : Option String) → Bool
permits none ctx required = false
permits (some token) ctx required = token_permits token ctx required

check_required-holds :
    (token : TokenRow) (effective : List String) (required : Option String)
    → resolve_effective_capabilities token.scopes token.capabilities ≡ some effective
    → (check_required effective required).allowed ≡ holds_required token required
check_required-holds token effective none h = refl
check_required-holds token effective (some required) h =
    let same = has_capability-holds token.scopes token.capabilities effective (required ∷ []) h in
    ground (arith, same)

-- An answer, when there is one, allows exactly what is permitted.
abbrev Agrees : Bool → Option PolicyResult → Type 0
Agrees permitted none = Unit
Agrees permitted (some r) = r.allowed ≡ permitted

-- The answers of `evaluate_token` in the order of its guards.
guards-Agrees :
    (active outside human other held : Bool) (no_token no_scope no_human no_harness : PolicyResult)
    (last : Option PolicyResult)
    → no_token.allowed ≡ false
    → no_scope.allowed ≡ false
    → no_human.allowed ≡ false
    → no_harness.allowed ≡ false
    → Agrees held last
    → Agrees (active && not outside && not human && not other && held) (
        if not active
        then some no_token
        else if outside
        then some no_scope
        else if human
        then some no_human
        else if other
        then some no_harness
        else last)
guards-Agrees false outside human other held t s h n last et es eh en l = et
guards-Agrees true true human other held t s h n last et es eh en l = es
guards-Agrees true false true other held t s h n last et es eh en l = eh
guards-Agrees true false false true held t s h n last et es eh en l = en
guards-Agrees true false false false held t s h n last et es eh en l = l

check_capability-Agrees :
    (token : TokenRow) (kind : String) (o : Option (List String))
    → resolve_effective_capabilities token.scopes token.capabilities ≡ o
    → Agrees (holds_required token (required_capability kind)) (check_capability o kind)
check_capability-Agrees token kind none h = tt
check_capability-Agrees token kind (some effective) h =
    check_required-holds token effective (required_capability kind) h

active_lem : (s : TokenStatus) → is_active s ≡ (elim s [ active ↦ true | revoked ↦ false ])
active_lem active = refl
active_lem revoked = refl

in_scope_lem :
    (token : TokenRow) (scope_id : String)
    → not (out_of_scope token scope_id)
      ≡ ((token.space_id == "bootstrap") || (token.space_id == scope_id))
unfolding out_of_scope
in_scope_lem token scope_id = ground arith

regroup : (a b c d e : Bool) → (a && b && c && d && e) ≡ (a && b && (c && d) && e)
regroup a b c d e = ground arith

guards-permits :
    (token : TokenRow) (ctx : CommandContext) (required : Option String)
    → (is_active token.status
        && not (out_of_scope token ctx.provenance.scope_id)
        && not (is_human_only token ctx)
        && not (is_other_harness token ctx)
        && holds_required token required)
      ≡ token_permits token ctx required
guards-permits token ctx required =
    regroup (is_active token.status) (not (out_of_scope token ctx.provenance.scope_id))
      (not (is_human_only token ctx)) (not (is_other_harness token ctx))
      (holds_required token required)
    ∙ rw
        (
          active_lem token.status,
          in_scope_lem token ctx.provenance.scope_id,
          harness_allows_lem token ctx,
        )
        refl

evaluate_token-Agrees :
    (o : Option TokenRow) (ctx : CommandContext)
    → Agrees (permits o ctx (required_for ctx.command_kind)) (evaluate_token o ctx)
evaluate_token-Agrees none ctx = refl
evaluate_token-Agrees (some token) ctx =
    subst (λ b. Agrees b (evaluate_token (some token) ctx))
      (guards-permits token ctx (required_capability ctx.command_kind)
        ∙ ap (token_permits token ctx) (required_for_lem ctx.command_kind))
      (guards-Agrees (is_active token.status) (out_of_scope token ctx.provenance.scope_id)
        (is_human_only token ctx) (is_other_harness token ctx) _ _ _ _ _ _ refl refl refl refl
        (check_capability-Agrees token ctx.command_kind _ refl))

-- Whenever the policy port answers, it allows a command exactly when the credential is the token
-- of the store that is active; is for the command's space or for the bootstrap space; when the
-- actor is an agent, has no harness, or one that is not human_only and that the payload, if it
-- claims a harness, claims; and holds hub:admin or the capability that the kind requires, if any.
pub evaluate-permits :
    (tokens : Dict String TokenRow) (ctx : CommandContext) (r : PolicyResult)
    → evaluate tokens ctx ≡ some r
    → r.allowed
      ≡ permits (lookup ctx.provenance.credential_id tokens) ctx (required_for ctx.command_kind)
unfolding evaluate
evaluate-permits tokens ctx r h =
    let token = lookup ctx.provenance.credential_id tokens in
    subst (Agrees (permits token ctx (required_for ctx.command_kind))) h
      (evaluate_token-Agrees token ctx)
