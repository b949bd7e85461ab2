-- ===== src/Hub/Runs/Capacity.antt =====
-- The number of active runs of a flow and its policy: packages/hub-core/src/run/admission.ts.
pub mod Starts
pub mod Stops
pub mod Reachable
use murrmure.Prelude.{
  ℕ, suc, ◌+◌, ◌≤◌, ◌<◌, ◌≡◌, ◌≢◌, ◌⊎◌, refl, sym, ap, ◌∙◌, subst, String, Bool, true, false, ◌&&◌,
  ◌||◌, Option, none, some, if◌then◌else◌, arith, length, leb, opt_str_eq, non_empty, Bool-cases,
  inl, inr, ◌==◌, eq_iff, and_both,
}
use murrmure.Dict.{values, string_key}
use murrmure.Hub.Ids.{bare_space_id}
use murrmure.Hub.Runs.{
  RunRow, Studio, RunFilter, ResolvedRunPolicy, in_space, of_flow, has_lifecycle,
}
use murrmure.Hub.Runs.Admission.{
  FlowAdmission, list_indexed_run_policies, active_flow_runs, policy_of, admit_under,
  capacity_error, admit_flow_run, non_terminal_lifecycles,
}
use murrmure.Hub.Runs.Counting.{count, passes, length-list_runs, count-insert, count-insert_other}
use murrmure.Hub.Runs.Growth.{Same, Grows}

-- A text that is a bare id of a space.
pub record IsBareId (space : String) : Type 0 where
  pub bare : bare_space_id space ≡ space
  pub given : (space == "") ≡ false

abbrev pub active_of : String → String → RunFilter
active_of space flow = record {
  space_id = some space;
  flow_id = some flow;
  lifecycles = non_terminal_lifecycles;
}

opt_str_eq-some : (o : Option String) (a : String) → opt_str_eq o (some a) ≡ true → o ≡ some a
opt_str_eq-some none a h = cc
opt_str_eq-some (some b) a h = ap some ((eq_iff b a).0 h)

pub non_empty-given : (a : String) → (a == "") ≡ false → non_empty (some a) ≡ some a
non_empty-given a h = rw h refl

pub non_empty-some : (o : Option String) (a : String) → non_empty o ≡ some a → o ≡ some a
non_empty-some none a h = cc
non_empty-some (some b) a h = elim (Bool-cases (b == "")) [
  | inl y ↦ absurd (never (sym (rw y refl) ∙ h))
  | inr n ↦ sym (non_empty-given b n) ∙ h
]
  where
    never : none ≢ some a
    never e = cc

module _ (before : String → String → Bool) where
  -- The number of active runs of a flow in a space.
  abbrev pub used : String → String → Studio → ℕ
  used space flow s = length (active_flow_runs before space flow s)

  pub used-count :
      (space flow : String) (s : Studio)
      → used space flow s ≡ count (passes (active_of space flow)) (values s.runs)
  unfolding active_flow_runs
  used-count space flow s = length-list_runs before (active_of space flow) s

  pub used-Same :
      (space flow : String) (s t : Studio) → Same s t → used space flow t ≡ used space flow s
  used-Same space flow s t same =
      used-count space flow t
      ∙ ap (λ m. count (passes (active_of space flow)) (values m)) same.runs
      ∙ sym (used-count space flow s)

  -- No flow of any space has more active runs than its policy allows, and `extra` ones.
  abbrev pub Within : (extra : ℕ) → Studio → Type 0
  Within extra s =
      (space flow : String) (policy : ResolvedRunPolicy)
      → IsBareId space
      → (flow == "") ≡ false
      → policy_of flow (list_indexed_run_policies space s) ≡ some policy
      → used space flow s ≤ policy.max_concurrent_runs + extra

  passes-row :
      (space flow : String) (row : RunRow)
      → IsBareId space
      → (flow == "") ≡ false
      → passes (active_of space flow) row ≡ true
      → (row.space_id ≡ some space) × (row.flow_id ≡ some flow)
  passes-row space flow row plain named h =
      let (places, _) =
        and_both (in_space (non_empty (some space)) row && of_flow (non_empty (some flow)) row)
          (has_lifecycle non_terminal_lifecycles row) h in
      let (here, mine) =
        and_both (in_space (non_empty (some space)) row) (of_flow (non_empty (some flow)) row)
          places in
      (
        opt_str_eq-some row.space_id space
            (either (subst (λ o. in_space o row ≡ true) (non_empty-given space plain.given) here)),
        opt_str_eq-some row.flow_id flow
            (subst (λ o. of_flow o row ≡ true) (non_empty-given flow named) mine),
      )
    where
      either : in_space (some space) row ≡ true → opt_str_eq row.space_id (some space) ≡ true
      either e = ground (
        arith,
        subst
            (λ b. (opt_str_eq row.space_id (some b) || opt_str_eq row.space_id (some space)) ≡ true)
            plain.bare e,
      )

  -- A start adds at most one active run, and only to its own flow and space.
  pub Grows-used :
      (sp fl : Option String) (s t : Studio) (space flow : String)
      → Grows sp fl s t
      → IsBareId space
      → (flow == "") ≡ false
      → (used space flow t ≤ used space flow s)
        ⊎ ((used space flow t ≤ suc (used space flow s)) × (sp ≡ some space) × (fl ≡ some flow))
  Grows-used sp fl s t space flow (Grows.kept same) plain named =
      inl (omega (arith, used-Same space flow s t same))
  Grows-used sp fl s t space flow (Grows.grown row es ef runs index) plain named =
      let p = passes (active_of space flow) in
      let after = used-count space flow t ∙ ap (λ m. count p (values m)) runs in
      elim (Bool-cases (p row)) [
        | inl y ↦
            let (here, mine) = passes-row space flow row plain named y in
            inr (
              omega (arith, after, used-count space flow s, count-insert p row.run_id row s.runs),
              sym es ∙ here,
              sym ef ∙ mine,
            )
        | inr n ↦ inl (
            omega
              (arith, after, used-count space flow s, count-insert_other p row.run_id row s.runs n))
      ]

  -- A flow is admitted only while it has fewer active runs than its policy allows.
  pub admit_flow_run-below :
      (space_id space flow : String) (policy : ResolvedRunPolicy) (max : Option ℕ) (s : Studio)
      → bare_space_id space_id ≡ space
      → policy_of flow (list_indexed_run_policies space s) ≡ some policy
      → admit_flow_run before space_id flow s ≡ FlowAdmission.admitted max
      → used space flow s < policy.max_concurrent_runs
  unfolding admit_flow_run
  admit_flow_run-below space_id space flow policy max s same limited h = below (
      sym (ap (λ o. admit_under o (active_flow_runs before space flow s)) limited)
      ∙ sym (
          ap
            (λ b.
              admit_under (policy_of flow (list_indexed_run_policies b s))
                (active_flow_runs before b flow s))
            same)
      ∙ h)
    where
      answer :
          (b : Bool)
          → (if b
              then FlowAdmission.at_capacity
                  (capacity_error policy (active_flow_runs before space flow s))
              else FlowAdmission.admitted (some policy.max_concurrent_runs))
            ≡ FlowAdmission.admitted max
          → b ≡ false
      answer true e = cc
      answer false e = refl

      below :
          admit_under (some policy) (active_flow_runs before space flow s)
            ≡ FlowAdmission.admitted max
          → used space flow s < policy.max_concurrent_runs
      below e = ground (arith, answer (leb policy.max_concurrent_runs (used space flow s)) e)
