-- ===== src/Kernel/Handlers/Transitions.antt =====
-- packages/runtime-kernel/src/command/handler.ts: `handleTransition`.
use murrmure.Prelude.{
  ℕ, String, true, false, not, Option, none, some, [], ◌∷◌, if◌then◌else◌, template,
}
use murrmure.Prelude.Int.{ℤ, pos, int_eq}
use murrmure.Dict.{string_key, lookup}
use murrmure.Json.{num, str, arr, end, field}
use murrmure.Text.{decimal, decimal_int}
use murrmure.Contracts.Results.{Provenance, CommandResult, success, conflict}
use murrmure.Contracts.Results.DenialCodes
use murrmure.Contracts.Journal.EntryTypes
use murrmure.Contracts.Rules.{RuleArtifact, RuleTransition, CheckpointRule}
use murrmure.Contracts.Aggregates.{Aggregate}
use murrmure.Contracts.Commands.{TransitionCommand}
use murrmure.Kernel.Entries.{build_entry, about}
use murrmure.Kernel.Executor.{
  find_matching_transition, find_legal_transitions_for_actor, legal_value, apply_transition,
  transition_applied_payload,
}
use murrmure.Kernel.Checkpoints.{checkpoint_from_transition}
use murrmure.Kernel.Commit.{commit_success, commit_checkpoint_pending, commit_denial}
use murrmure.Kernel.World.{Ports, M, gets, run_in_transaction, ulid, now_iso, load_rules, ◌>>=◌}
use murrmure.Kernel.Handlers.Denials.{deny_missing}

abbrev pub revision_message : ℤ → ℕ → String
revision_message expected current =
    template ("Expected revision " ∷ decimal_int expected ∷ ", current " ∷ decimal current ∷ [])

module _ (ports : Ports) (p : Provenance) where
  -- The transition has a checkpoint: the aggregate waits in its state.
  unfoldable pub pause_transition :
      TransitionCommand → RuleTransition → CheckpointRule → String → M CommandResult
  unfolding commit_checkpoint_pending ulid
  pause_transition command transition rule ts = do
    checkpoint_id ← ulid ports
    entry_id ← ulid ports
    commit_checkpoint_pending p
        (build_entry p entry_id ts EntryTypes.checkpoint_created success
          (field "checkpoint_id" (str checkpoint_id) (
            field "transition_id" (str transition.id)
              (field "from" (str transition.from) (field "to" (str transition.to) end))))
          (about command.aggregate_id))
        (checkpoint_from_transition checkpoint_id p.scope_id command.aggregate_id transition rule
          ts)

  unfoldable pub take_transition :
      TransitionCommand → Aggregate → RuleArtifact → RuleTransition → String → M CommandResult
  unfolding commit_success ulid
  take_transition command aggregate artifact transition ts = do
    let updated = apply_transition aggregate transition artifact ts command.payload
    entry_id ← ulid ports
    commit_success ports p
        (build_entry p entry_id ts EntryTypes.transition_applied success
          (transition_applied_payload transition updated command.payload)
          (about command.aggregate_id))
        updated (pos aggregate.revision) "transition_applied"
        (field "aggregate_id" (str updated.aggregate_id)
          (field "state" (str updated.state) (field "revision" (num updated.revision) end)))

  unfoldable pub deny_unmatched : TransitionCommand → Aggregate → RuleArtifact → M CommandResult
  unfolding commit_denial
  deny_unmatched command aggregate artifact =
      let legal =
        find_legal_transitions_for_actor ports.condition aggregate p.actor_id p.actor_kind
          artifact in
      commit_denial ports p EntryTypes.transition_denied DenialCodes.transition_denied
        (template ("No matching transition for event '" ∷ command.event ∷ "'" ∷ [])) conflict false
        (some (field "legal_transitions_for_actor" (arr (legal_value legal)) end))
        (some command.aggregate_id)

  abbrev pub take_or_pause :
      TransitionCommand
      → Aggregate
      → RuleArtifact
      → RuleTransition
      → String
      → Option CheckpointRule
      → M CommandResult
  take_or_pause command aggregate artifact transition ts none =
      take_transition command aggregate artifact transition ts
  take_or_pause command aggregate artifact transition ts (some rule) =
      pause_transition command transition rule ts

  unfoldable pub perform_transition :
      TransitionCommand → Aggregate → RuleArtifact → RuleTransition → M CommandResult
  unfolding commit_denial pause_transition take_transition now_iso
  perform_transition command aggregate artifact transition =
      if not (int_eq command.expected_revision (pos aggregate.revision))
      then commit_denial ports p EntryTypes.revision_conflict DenialCodes.revision_conflict
          (revision_message command.expected_revision aggregate.revision) conflict true none
          (some command.aggregate_id)
      else (do
        ts ← now_iso ports
        take_or_pause command aggregate artifact transition ts transition.checkpoint)

  abbrev pub perform_found :
      TransitionCommand → Aggregate → RuleArtifact → Option RuleTransition → M CommandResult
  perform_found command aggregate artifact none = deny_unmatched command aggregate artifact
  perform_found command aggregate artifact (some transition) =
      perform_transition command aggregate artifact transition

  unfoldable pub transition_of : TransitionCommand → Aggregate → M CommandResult
  unfolding deny_unmatched perform_transition load_rules
  transition_of command aggregate = do
    artifact ← load_rules ports aggregate.rule_ref
    perform_found command aggregate artifact (
        find_matching_transition ports.condition aggregate p.actor_id p.actor_kind artifact
          command.event)

  abbrev pub transition_found : TransitionCommand → Option Aggregate → M CommandResult
  transition_found command none =
      deny_missing ports p EntryTypes.transition_denied command.aggregate_id
  transition_found command (some aggregate) = transition_of command aggregate

  unfoldable pub handle_transition : TransitionCommand → M CommandResult
  unfolding transition_of commit_denial run_in_transaction
  handle_transition command = do
    found ← run_in_transaction (gets (λ s. lookup command.aggregate_id s.snapshots))
    transition_found command found
