-- ===== src/Hub/Runs/Policies/Resolved.antt =====
-- Which run policies resolve, and to what: packages/hub-core/src/index/run-policy.ts.
use murrmure.Prelude.{
  ◌≡◌, ◌↔◌, refl, sym, ap, ◌∙◌, subst, String, false, List, [], ◌∷◌, ◌++◌, if◌then◌else◌, get_or,
  fold, keep, eq_iff, ◌==◌, append-nil, append_assoc, Bool-cases, inl, inr,
}
use murrmure.Dict.{Dict, lookup, lookup-insert, string_key}
use murrmure.Hub.Sets.{has, add}
use murrmure.Hub.Runs.{ResolvedRunPolicy}
use murrmure.Hub.Runs.Policies.{
  RunPolicy, RunPolicyFlow, Resolution, add_named, flows_by_name, resolve_to, resolve_match,
  resolve_each, resolve_run_policies, duplicate_policy,
}

-- The flows with this name.
abbrev pub named : String → List RunPolicyFlow → List RunPolicyFlow
named name flows = keep (λ f. f.name == name) flows

lookup-fold-named :
    (name : String) (flows : List RunPolicyFlow) (by_name : Dict String (List RunPolicyFlow))
    → get_or (lookup name (fold add_named by_name flows)) []
      ≡ get_or (lookup name by_name) [] ++ named name flows
lookup-fold-named name [] by_name = sym (append-nil (get_or (lookup name by_name) []))
lookup-fold-named name (f ∷ flows) by_name =
    lookup-fold-named name flows (add_named by_name f)
    ∙ ap (λ o. get_or o [] ++ named name flows)
        (lookup-insert f.name name (get_or (lookup f.name by_name) [] ++ f ∷ []) by_name)
    ∙ elim (Bool-cases (f.name == name)) [
      | inl y ↦ rw y (
          append_assoc (get_or (lookup f.name by_name) []) (f ∷ []) (named name flows)
          ∙ ap (λ n. get_or (lookup n by_name) [] ++ f ∷ named name flows)
              ((eq_iff f.name name).0 y))
      | inr n ↦ rw n refl
    ]

lookup-flows_by_name :
    (name : String) (flows : List RunPolicyFlow)
    → get_or (lookup name (flows_by_name flows)) [] ≡ named name flows
unfolding flows_by_name lookup
lookup-flows_by_name name flows = lookup-fold-named name flows []

module _ (flows : List RunPolicyFlow) where
  -- One flow has the name of the policy, and the policy resolves to that flow.
  abbrev pub ResolvesTo : RunPolicy → ResolvedRunPolicy → Type 0
  ResolvesTo policy r =
      (f : RunPolicyFlow) × (named policy.flow flows ≡ f ∷ []) × (r ≡ resolve_to policy f)

  -- Each policy resolves to the entry at its place, and no entry has the flow id of another one,
  -- nor one of those seen.
  abbrev pub Resolves : List String → List RunPolicy → List ResolvedRunPolicy → Type 0
  Resolves seen [] [] = Unit
  Resolves seen (policy ∷ policies) (r ∷ rs) =
      ResolvesTo policy r × (has r.flow_id seen ≡ false) × Resolves (add seen r.flow_id) policies rs
  Resolves seen _ _ = ⊥

  -- What the loop returns, after it has resolved `out`.
  abbrev Found : List String → List RunPolicy → List ResolvedRunPolicy → Resolution → Type 0
  Found seen policies out (Resolution.unresolved code message flow) = Unit
  Found seen policies out (Resolution.resolved rs) =
      (new : List ResolvedRunPolicy) × (rs ≡ out ++ new) × Resolves seen policies new

  resolve_match-Found :
      (policy : RunPolicy) (policies : List RunPolicy) (matches : List RunPolicyFlow)
      (next : List String → List ResolvedRunPolicy → Resolution) (seen : List String)
      (out : List ResolvedRunPolicy)
      → named policy.flow flows ≡ matches
      → ((s : List String) (o : List ResolvedRunPolicy) → Found s policies o (next s o))
      → Found seen (policy ∷ policies) out (resolve_match policy matches next seen out)
  resolve_match-Found policy policies [] next seen out e h = tt
  resolve_match-Found policy policies (f ∷ g ∷ fs) next seen out e h = tt
  resolve_match-Found policy policies (f ∷ []) next seen out e h =
      elim (Bool-cases (has f.flow_id seen)) [
        | inl y ↦ rw y tt
        | inr n ↦ rw n (
            extend n (next (add seen f.flow_id) (out ++ resolve_to policy f ∷ []))
              (h (add seen f.flow_id) (out ++ resolve_to policy f ∷ [])))
      ]
    where
      extend :
          has f.flow_id seen ≡ false
          → (r : Resolution)
          → Found (add seen f.flow_id) policies (out ++ resolve_to policy f ∷ []) r
          → Found seen (policy ∷ policies) out r
      extend n (Resolution.unresolved code message flow) found = tt
      extend n (Resolution.resolved rs) (new, shape, each) = (
        resolve_to policy f ∷ new,
        shape ∙ append_assoc out (resolve_to policy f ∷ []) new,
        ((f, e, refl), n, each),
      )

  resolve_each-Found :
      (policies : List RunPolicy) (seen : List String) (out : List ResolvedRunPolicy)
      → Found seen policies out (resolve_each (flows_by_name flows) policies seen out)
  unfolding resolve_each
  resolve_each-Found [] seen out = ([], sym (append-nil out), tt)
  resolve_each-Found (policy ∷ policies) seen out =
      resolve_match-Found policy policies _ (resolve_each (flows_by_name flows) policies) seen out
        (sym (lookup-flows_by_name policy.flow flows)) (λ s o. resolve_each-Found policies s o)

  Resolves-resolve_each :
      (policies : List RunPolicy) (new : List ResolvedRunPolicy) (seen : List String)
      (out : List ResolvedRunPolicy)
      → Resolves seen policies new
      → resolve_each (flows_by_name flows) policies seen out ≡ Resolution.resolved (out ++ new)
  unfolding resolve_each
  Resolves-resolve_each [] [] seen out h = ap Resolution.resolved (sym (append-nil out))
  Resolves-resolve_each (policy ∷ policies) [] seen out h = absurd h
  Resolves-resolve_each [] (r ∷ new) seen out h = absurd h
  Resolves-resolve_each (policy ∷ policies) (r ∷ new) seen out ((f, only, same), fresh, each) =
      ap (λ m. resolve_match policy m (resolve_each (flows_by_name flows) policies) seen out)
        (lookup-flows_by_name policy.flow flows ∙ only)
      ∙ ap
          (λ b.
            if b
            then duplicate_policy policy
            else resolve_each (flows_by_name flows) policies (add seen f.flow_id)
                (out ++ resolve_to policy f ∷ []))
          (sym (ap (λ p. has p.flow_id seen) same) ∙ fresh)
      ∙ ap (λ p. resolve_each (flows_by_name flows) policies (add seen p.flow_id) (out ++ p ∷ []))
          (sym same)
      ∙ Resolves-resolve_each policies new (add seen r.flow_id) (out ++ r ∷ []) each
      ∙ ap Resolution.resolved (append_assoc out (r ∷ []) new)

  -- Run policies resolve to these entries exactly when each policy's name is that of one flow
  -- only, the entry at its place is made of the policy and that flow, and no two entries have the
  -- same flow id.
  pub resolve_run_policies-Resolves :
      (policies : List RunPolicy) (rs : List ResolvedRunPolicy)
      → (resolve_run_policies policies flows ≡ Resolution.resolved rs) ↔ Resolves [] policies rs
  unfolding resolve_run_policies
  resolve_run_policies-Resolves policies rs = (
    λ h.
        let (new, same, each) =
          subst (Found [] policies []) h (resolve_each-Found policies [] []) in
        subst (Resolves [] policies) (sym same) each,
    λ each. Resolves-resolve_each policies rs [] [] each,
  )
