-- ===== src/Hub/Policy/Harness.antt =====
-- What the harness of a token allows: packages/hub-core/src/ports/policy.ts.
use murrmure.Prelude.{
  ◌≡◌, refl, sym, ap, subst, String, Bool, true, false, not, ◌&&◌, ◌||◌, Option, none, some, arith,
  ◌==◌, eq_iff, nat_eq, opt_str_eq, non_empty, Bool-cases, inl, inr,
}
use murrmure.Dict.{string_key}
use murrmure.Json.{Value, undefined, null, bool, num, str, arr, obj, Fields, get}
use murrmure.Contracts.Results.{ActorKind}
use murrmure.Hub.Policy.{
  TokenRow, CommandContext, is_agent, is_human_only, is_other_harness, harness_claim, claims_other,
}

-- A harness that an agent claims: nothing that counts as true, or the harness of the token.
abbrev pub claim_fits : String → Value → Bool
claim_fits harness undefined = true
claim_fits harness null = true
claim_fits harness (bool b) = not b
claim_fits harness (num n) = nat_eq n 0
claim_fits harness (str s) = (s == "") || (s == harness)
claim_fits harness (arr _) = false
claim_fits harness (obj _) = false

abbrev pub payload_fits : String → Option Fields → Bool
payload_fits harness none = true
payload_fits harness (some fields) = claim_fits harness (get "harness" fields)

-- What the harness of a token allows an agent.
abbrev pub agent_may : Option String → Option Fields → Bool
agent_may none payload = true
agent_may (some harness) payload =
    (harness == "") || (not (harness == "human_only") && payload_fits harness payload)

abbrev pub harness_allows : Option String → Option ActorKind → Option Fields → Bool
harness_allows harness (some ActorKind.agent) payload = agent_may harness payload
harness_allows harness (some ActorKind.human) payload = true
harness_allows harness (some ActorKind.system) payload = true
harness_allows harness none payload = true

claims_other-fits :
    (harness : String) (claim : Value)
    → not (claims_other (some harness) claim) ≡ claim_fits harness claim
claims_other-fits harness undefined = refl
claims_other-fits harness null = refl
claims_other-fits harness (bool true) = refl
claims_other-fits harness (bool false) = refl
claims_other-fits harness (num n) = ground arith
claims_other-fits harness (str s) = ground arith
claims_other-fits harness (arr vs) = refl
claims_other-fits harness (obj fields) = refl

payload-fits :
    (harness : String) (payload : Option Fields)
    → not (claims_other (some harness) (harness_claim payload)) ≡ payload_fits harness payload
payload-fits harness none = refl
payload-fits harness (some fields) = claims_other-fits harness (get "harness" fields)

is_agent-allows :
    (harness : Option String) (payload : Option Fields)
    → (not (opt_str_eq harness (some "human_only"))
        && not (claims_other (non_empty harness) (harness_claim payload)))
      ≡ agent_may harness payload
is_agent-allows none payload = refl
is_agent-allows (some harness) payload = elim (Bool-cases (harness == "")) [
  | inl y ↦
      let plain : (harness == "human_only") ≡ false =
        subst (λ h. (h == "human_only") ≡ false) (sym ((eq_iff harness "").0 y)) refl in
      rw (y, plain) refl
  | inr n ↦ rw n (ap (λ b. not (harness == "human_only") && b) (payload-fits harness payload))
]

pub harness_allows_lem :
    (token : TokenRow) (ctx : CommandContext)
    → (not (is_human_only token ctx) && not (is_other_harness token ctx))
      ≡ harness_allows token.harness_id ctx.provenance.actor_kind ctx.payload
unfolding is_human_only is_other_harness
harness_allows_lem token ctx = by_kind ctx.provenance.actor_kind
  where
    by_kind :
        (kind : Option ActorKind)
        → (not (opt_str_eq token.harness_id (some "human_only") && is_agent kind)
            && not (
                is_agent kind
                && claims_other (non_empty token.harness_id) (harness_claim ctx.payload)))
          ≡ harness_allows token.harness_id kind ctx.payload
    by_kind none = ground arith
    by_kind (some ActorKind.human) = ground arith
    by_kind (some ActorKind.system) = ground arith
    by_kind (some ActorKind.agent) =
        let same = is_agent-allows token.harness_id ctx.payload in ground (arith, same)
