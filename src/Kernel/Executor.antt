-- ===== src/Kernel/Executor.antt =====
-- packages/runtime-kernel/src/executor/match.ts: which transition an event takes.
use murrmure.Prelude.{
  ◌+◌, String, Bool, ◌&&◌, Option, none, some, List, [], ◌∷◌, ◌==◌, if◌then◌else◌, keep,
}
use murrmure.Json.{num, str, obj, Values, nil, cons, Fields, end, field, spread, obj_or_undefined}
use murrmure.Contracts.Results.{ActorKind}
use murrmure.Contracts.Rules.{RuleArtifact, RuleTransition}
use murrmure.Contracts.Aggregates.{Aggregate}
use murrmure.Kernel.Fold.{resolve_aggregate_status, status_value}

-- `ConditionPort`: guards in an expression language, and patterns for actors.
pub record ConditionPort : Type 0 where
  -- `evaluate(condition, { aggregate, event })`.
  pub evaluate : Option String → Aggregate → String → Bool
  -- `matchActor(actor_id, patterns, actor_kind)`.
  pub match_actor : String → List String → Option ActorKind → Bool

module _ (condition : ConditionPort) (aggregate : Aggregate) (actor_id : String)
    (actor_kind : Option ActorKind) where
  open condition use {evaluate, match_actor}

  -- The two tests of both loops, for a transition and the event that it is tried with.
  abbrev pub is_permitted : String → RuleTransition → Bool
  is_permitted event t =
      match_actor actor_id t.actors actor_kind && evaluate t.condition aggregate event

  unfoldable pub first_permitted : String → List RuleTransition → Option RuleTransition
  first_permitted event [] = none
  first_permitted event (t ∷ ts) =
      let later = first_permitted event ts in if is_permitted event t then some t else later

  unfoldable pub find_matching_transition : RuleArtifact → String → Option RuleTransition
  unfolding first_permitted
  find_matching_transition artifact event =
      first_permitted event
        (keep (λ t. (t.from == aggregate.state) && (t.event == event)) artifact.transitions)

  -- Each transition is tried with its own event.
  unfoldable pub permitted : List RuleTransition → List RuleTransition
  permitted [] = []
  permitted (t ∷ ts) =
      let later = permitted ts in if is_permitted t.event t then t ∷ later else later

  unfoldable pub find_legal_transitions_for_actor : RuleArtifact → List RuleTransition
  unfolding permitted
  find_legal_transitions_for_actor artifact =
      permitted (keep (λ t. t.from == aggregate.state) artifact.transitions)

-- `{ event, to, transition_id }` for each legal transition.
abbrev pub legal_value : List RuleTransition → Values
legal_value [] = nil
legal_value (t ∷ ts) =
    cons
      (obj (
        field "event" (str t.event) (field "to" (str t.to) (field "transition_id" (str t.id) end))))
      (legal_value ts)

abbrev pub patch_metadata : Fields → Option Fields → Fields
patch_metadata metadata none = metadata
patch_metadata metadata (some patch) = spread metadata patch

unfoldable pub apply_transition :
    Aggregate → RuleTransition → RuleArtifact → String → Option Fields → Aggregate
apply_transition aggregate transition artifact ts metadata_patch = record aggregate {
  state = transition.to;
  revision = aggregate.revision + 1;
  metadata = patch_metadata aggregate.metadata metadata_patch;
  updated_at = ts;
  status = resolve_aggregate_status transition.to artifact;
}

unfoldable pub transition_applied_payload : RuleTransition → Aggregate → Option Fields → Fields
transition_applied_payload transition aggregate metadata_patch =
    field "transition_id" (str transition.id) (
      field "event" (str transition.event) (
        field "from" (str transition.from) (
          field "to" (str transition.to) (
            field "status" (status_value aggregate.status) (
              field "revision" (num aggregate.revision)
                (field "metadata_patch" (obj_or_undefined metadata_patch) end))))))
