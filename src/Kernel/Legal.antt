-- ===== src/Kernel/Legal.antt =====
-- What `findMatchingTransition` and `findLegalTransitionsForActor` find.
use murrmure.Prelude.{
  String, ◌≡◌, refl, sym, ap, ◌∙◌, Bool, true, ◌&&◌, ◌⊎◌, Option, none, some, List, [], ◌∷◌, keep,
  and_both, arith, ◌==◌, eq_iff, Bool-cases, inl, inr, find,
}
use murrmure.Contracts.Results.{ActorKind}
use murrmure.Contracts.Rules.{RuleArtifact, RuleTransition}
use murrmure.Contracts.Aggregates.{Aggregate}
use murrmure.Kernel.Executor.{
  ConditionPort, is_permitted, first_permitted, find_matching_transition, permitted,
  find_legal_transitions_for_actor,
}

module _ (condition : ConditionPort) (aggregate : Aggregate) (actor_id : String)
    (actor_kind : Option ActorKind) where
  -- A transition that the actor may take on the event, from the aggregate's state.
  abbrev pub Takes : String → RuleTransition → Type 0
  Takes event t =
      (t.from ≡ aggregate.state)
      × (t.event ≡ event)
      × (condition.match_actor actor_id t.actors actor_kind ≡ true)
      × (condition.evaluate t.condition aggregate event ≡ true)

  abbrev permits : String → RuleTransition → Bool
  permits event t = is_permitted condition aggregate actor_id actor_kind event t

  -- The loop over the transitions that match is a search among the legal ones.
  first-permitted :
      (event : String) (ts : List RuleTransition)
      → first_permitted condition aggregate actor_id actor_kind event
          (keep (λ t. (t.from == aggregate.state) && (t.event == event)) ts)
        ≡ find
            (λ t. t.event == event)
            (permitted condition aggregate actor_id actor_kind
              (keep (λ t. t.from == aggregate.state) ts))
  unfolding first_permitted permitted
  first-permitted event [] = refl
  first-permitted event (t ∷ ts) = elim (Bool-cases (t.from == aggregate.state)) [
    | inr x ↦ rw x (first-permitted event ts)
    | inl y ↦ rw y (elim (Bool-cases (t.event == event)) [
      | inl same ↦
          let e : event ≡ t.event = sym ((eq_iff t.event event).0 same) in
          elim (Bool-cases (permits t.event t)) [
            | inl may ↦ rw (same, may, ap (λ x. permits x t) e ∙ may) (rw same refl)
            | inr may_not ↦
                rw (same, may_not, ap (λ x. permits x t) e ∙ may_not) (first-permitted event ts)
          ]
      | inr other ↦ elim (Bool-cases (permits t.event t)) [
        | inl may ↦ rw (other, may) (rw other (first-permitted event ts))
        | inr may_not ↦ rw (other, may_not) (first-permitted event ts)
      ]
    ])
  ]

  -- The transition that a command takes is the first of the transitions that are legal for the
  -- actor that has the command's event.
  pub find_matching_transition_lem :
      (artifact : RuleArtifact) (event : String)
      → find_matching_transition condition aggregate actor_id actor_kind artifact event
        ≡ find
            (λ t. t.event == event)
            (find_legal_transitions_for_actor condition aggregate actor_id actor_kind artifact)
  unfolding find_matching_transition find_legal_transitions_for_actor
  find_matching_transition_lem artifact event = first-permitted event artifact.transitions

  -- Among the transitions, the first that the actor may take on the event; none when there is none.
  abbrev pub IsFirst : String → List RuleTransition → Option RuleTransition → Type 0
  IsFirst event [] found = found ≡ none
  IsFirst event (t ∷ ts) found =
      (Takes event t × (found ≡ some t)) ⊎ ((Takes event t → ⊥) × IsFirst event ts found)

  first_permitted-IsFirst :
      (event : String) (ts : List RuleTransition)
      → IsFirst event ts (
          first_permitted condition aggregate actor_id actor_kind event
            (keep (λ t. (t.from == aggregate.state) && (t.event == event)) ts))
  unfolding first_permitted
  first_permitted-IsFirst event [] = refl
  first_permitted-IsFirst event (t ∷ ts) =
      let later = first_permitted-IsFirst event ts in
      elim (Bool-cases ((t.from == aggregate.state) && (t.event == event))) [
        | inr x ↦ rw x (
            inr (
              λ (from, same, actor, guard).
                  ground (
                    arith,
                    x,
                    (eq_iff t.from aggregate.state).1 from,
                    (eq_iff t.event event).1 same,
                  ),
              later,
            ))
        | inl fit ↦
            let (from, same) = and_both (t.from == aggregate.state) (t.event == event) fit in
            rw fit (elim (Bool-cases (permits event t)) [
              | inl may ↦
                  let (actor, guard) = and_both _ _ may in
                  rw may (
                    inl (
                      (
                        (eq_iff t.from aggregate.state).0 from,
                        (eq_iff t.event event).0 same,
                        actor,
                        guard,
                      ),
                      refl,
                    ))
              | inr may_not ↦
                  rw may_not (
                    inr
                      (λ (from, same, actor, guard). ground (arith, may_not, actor, guard), later))
            ])
      ]

  -- The transition that a command takes is the first of the rules that leaves the aggregate's state
  -- on the command's event, lists the actor and has a condition that holds; there is none exactly
  -- when the rules have no such transition.
  pub find_matching_transition-IsFirst :
      (artifact : RuleArtifact) (event : String)
      → IsFirst event artifact.transitions
          (find_matching_transition condition aggregate actor_id actor_kind artifact event)
  unfolding find_matching_transition
  find_matching_transition-IsFirst artifact event =
      first_permitted-IsFirst event artifact.transitions
