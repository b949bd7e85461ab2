-- ===== src/Hub/Runs/Capacity/Starts.antt =====
-- A start keeps every flow within its capacity: packages/hub-core/src/run/service.ts.
use murrmure.Prelude.{
  ℕ, suc, ◌+◌, ◌≤◌, ◌<◌, ◌≡◌, ◌≢◌, ◌⊎◌, refl, sym, ap, ◌∙◌, String, Bool, false, Option, none, some,
  arith, get_or, non_empty, inl, inr, ◌==◌,
}
use murrmure.Dict.{lookup, string_key}
use murrmure.Hub.Ids.{bare_space_id, strip_prefix}
use murrmure.Hub.Runs.{Studio, ResolvedRunPolicy, FlowIndexEntry}
use murrmure.Hub.Runs.Admission.{
  FlowAdmission, admit_flow_run, list_indexed_run_policies, snapshot_policies, policy_of,
}
use murrmure.Hub.Runs.Service.{Services, CreateRunInput}
use murrmure.Hub.Runs.Start.{Hub, strip_space, create_run}
use murrmure.Hub.Runs.Guarded.{
  with_digest, create_admitted, create_indexed, create_guarded, admit_and_create_run,
}
use murrmure.Hub.Runs.Growth.{Same, Grows, create_run-Grows}
use murrmure.Hub.Runs.Capacity.{
  IsBareId, used, used-Same, Within, Grows-used, admit_flow_run-below, non_empty-some,
  non_empty-given,
}

some_inj : {a b : String} → some a ≡ some b → a ≡ b
some_inj {a} h = ap (λ o. get_or o a) h

-- The space of a start, if it has one, has the same bare id for the store and for admission: it
-- has the prefix `spc_`, or no underscore.
abbrev pub IsSpaceGiven : Option String → Type 0
IsSpaceGiven o =
    (space_id : String)
    → non_empty o ≡ some space_id
    → strip_prefix space_id ≡ bare_space_id space_id

module _ {W : Type 0} (services : Services W) (before : String → String → Bool) (extra : ℕ) where
  pub Within-fewer :
      (s t : Studio)
      → t.space_index ≡ s.space_index
      → ((space flow : String) (policy : ResolvedRunPolicy)
          → IsBareId space
          → (flow == "") ≡ false
          → policy_of flow (list_indexed_run_policies space s) ≡ some policy
          → used before space flow t ≤ policy.max_concurrent_runs + extra)
      → Within before extra t
  unfolding list_indexed_run_policies
  Within-fewer s t same h space flow policy plain named limited = h space flow policy plain named (
      ap (λ m. policy_of flow (snapshot_policies (lookup (bare_space_id space) m))) (sym same)
      ∙ limited)

  pub Within-Same : (s t : Studio) → Same s t → Within before extra s → Within before extra t
  Within-Same s t same w = Within-fewer s t same.index λ space flow policy plain named limited.
      omega (arith, used-Same before space flow s t same, w space flow policy plain named limited)

  Grows-index :
      (sp fl : Option String) (s t : Studio) → Grows sp fl s t → t.space_index ≡ s.space_index
  Grows-index sp fl s t (Grows.kept same) = same.index
  Grows-index sp fl s t (Grows.grown row es ef runs index) = index

  -- A start keeps the capacity when it is below the limit of its flow, if it has a space and a flow.
  Within-Grows :
      (sp fl : Option String) (s t : Studio)
      → Grows sp fl s t
      → ((space flow : String) (policy : ResolvedRunPolicy)
          → IsBareId space
          → (flow == "") ≡ false
          → sp ≡ some space
          → fl ≡ some flow
          → policy_of flow (list_indexed_run_policies space s) ≡ some policy
          → used before space flow s < policy.max_concurrent_runs)
      → Within before extra s
      → Within before extra t
  Within-Grows sp fl s t grows below w =
      Within-fewer s t (Grows-index sp fl s t grows) λ space flow policy plain named limited.
        elim (Grows-used before sp fl s t space flow grows plain named) [
          | inl fewer ↦ omega (arith, fewer, w space flow policy plain named limited)
          | inr (more, here, mine) ↦
              omega (arith, more, below space flow policy plain named here mine limited)
        ]

  -- A start without a space or without a flow is not counted.
  uncounted-Within :
      (input : CreateRunInput) (hub : Hub W)
      → (non_empty input.space_id ≡ none) ⊎ (non_empty input.flow_id ≡ none)
      → Within before extra hub.studio
      → Within before extra (create_run services before input hub).1.studio
  uncounted-Within input hub missing w =
      Within-Grows (strip_space (non_empty input.space_id)) input.flow_id hub.studio _
        (create_run-Grows services before input hub)
        (λ space flow policy plain named here mine limited. elim missing [
          | inl e ↦ absurd (no_space space (sym (ap strip_space e) ∙ here))
          | inr e ↦ absurd (no_space flow (sym e ∙ ap non_empty mine ∙ non_empty-given flow named))
        ])
        w
    where
      no_space : (a : String) → none ≢ some a
      no_space a e = cc

  indexed-Within :
      (o : Option FlowIndexEntry) (space_id flow_id : String) (input : CreateRunInput) (hub : Hub W)
      → non_empty input.space_id ≡ some space_id
      → non_empty input.flow_id ≡ some flow_id
      → strip_prefix space_id ≡ bare_space_id space_id
      → Within before extra hub.studio
      → Within before extra (create_indexed services before o space_id flow_id input hub).1.studio
  indexed-Within none space_id flow_id input hub es ef given w = w
  indexed-Within (some entry) space_id flow_id input hub es ef given w =
      decided (admit_flow_run before space_id flow_id hub.studio) refl
    where
      decided :
          (a : FlowAdmission)
          → admit_flow_run before space_id flow_id hub.studio ≡ a
          → Within before extra (create_admitted services before a entry input hub).1.studio
      decided (FlowAdmission.at_capacity error) e = w
      decided (FlowAdmission.admitted max) e =
          Within-Grows (strip_space (non_empty input.space_id)) input.flow_id hub.studio _
            (create_run-Grows services before (with_digest (some entry.digest) input) hub)
            (λ space flow policy plain named here mine limited.
              let place = sym given ∙ some_inj (sym (ap strip_space es) ∙ here) in
              let same = some_inj (sym (non_empty-some input.flow_id flow_id ef) ∙ mine) in
              admit_flow_run-below before space_id space flow policy max hub.studio place limited
                (ap (λ f. admit_flow_run before space_id f hub.studio) (sym same) ∙ e))
            w

  guarded-Within :
      (sp fl : Option String) (input : CreateRunInput) (hub : Hub W)
      → non_empty input.space_id ≡ sp
      → non_empty input.flow_id ≡ fl
      → IsSpaceGiven input.space_id
      → Within before extra hub.studio
      → Within before extra (create_guarded services before sp fl input hub).1.studio
  guarded-Within none fl input hub es ef given w = uncounted-Within input hub (inl es) w
  guarded-Within (some space_id) none input hub es ef given w =
      uncounted-Within input hub (inr ef) w
  guarded-Within (some space_id) (some flow_id) input hub es ef given w =
      indexed-Within _ space_id flow_id input hub es ef (given space_id es) w

  pub admit_and_create_run-Within :
      (input : CreateRunInput) (hub : Hub W)
      → IsSpaceGiven input.space_id
      → Within before extra hub.studio
      → Within before extra (admit_and_create_run services before input hub).1.studio
  unfolding admit_and_create_run
  admit_and_create_run-Within input hub given w =
      guarded-Within (non_empty input.space_id) (non_empty input.flow_id) input hub refl refl given
        w

  -- A start without admission adds at most one active run.
  pub create_run-Within :
      (input : CreateRunInput) (hub : Hub W)
      → Within before extra hub.studio
      → Within before (suc extra) (create_run services before input hub).1.studio
  unfolding list_indexed_run_policies
  create_run-Within input hub w space flow policy plain named limited =
      let s = hub.studio in
      let t = (create_run services before input hub).1.studio in
      let grows = create_run-Grows services before input hub in
      let same = Grows-index (strip_space (non_empty input.space_id)) input.flow_id s t grows in
      let earlier =
        ap (λ m. policy_of flow (snapshot_policies (lookup (bare_space_id space) m))) (sym same)
        ∙ limited in
      elim (Grows-used before _ input.flow_id s t space flow grows plain named) [
        | inl fewer ↦ omega (arith, fewer, w space flow policy plain named earlier)
        | inr (more, here, mine) ↦ omega (arith, more, w space flow policy plain named earlier)
      ]
