-- ===== src/Kernel/Replay/Handlers.antt =====
-- Every handler keeps the invariant.
use murrmure.Prelude.{
  suc, String, ◌≡◌, refl, true, false, not, Option, none, some, arith, Option-cases, Bool-cases, [],
  ◌∷◌, template, inl, inr, get_or,
}
use murrmure.Prelude.Int.{int_eq, pos}
use murrmure.Dict.{string_key, lookup}
use murrmure.Json.{Fields, field, str, arr, end, spread}
use murrmure.Contracts.Results.{Provenance, conflict, success, forbidden}
use murrmure.Contracts.Journal.{event}
use murrmure.Contracts.Journal.EntryTypes
use murrmure.Contracts.Results.DenialCodes
use murrmure.Contracts.Rules.{RuleArtifact, RuleTransition, CheckpointRule, EventDeclaration}
use murrmure.Contracts.Aggregates.{Aggregate}
use murrmure.Contracts.Commands.{CreateCommand, TransitionCommand, EventAppendCommand}
use murrmure.Kernel.Checkpoints.{checkpoint_from_transition}
use murrmure.Kernel.Entries.{build_entry, about}
use murrmure.Kernel.Executor.{
  find_matching_transition, find_legal_transitions_for_actor, legal_value,
}
use murrmure.Kernel.Handlers.Transitions.{
  revision_message, pause_transition, take_or_pause, perform_transition, perform_found,
  deny_unmatched, transition_of, transition_found, handle_transition,
}
use murrmure.Kernel.Handlers.Create.{create_aggregate, create_checked, handle_create}
use murrmure.Kernel.Handlers.Denials.{deny_invalid}
use murrmure.Kernel.Handlers.Events.{
  append_event, append_declared, append_to, declaration_of, handle_event_append,
}
use murrmure.Kernel.World.{World, Ports, M, pure, ulid, now_iso, load_rules}
use murrmure.Kernel.Frame.Calculus.{Frame, Quiet-pure}
use murrmure.Kernel.Frame.Store.{Frames-load_rules, Frames-now_iso}
use murrmure.Kernel.Replay.Invariant.{Inv, Injective, Frame-Inv, Inert-Inv}
use murrmure.Kernel.Replay.Commits.{
  commit_journal_only-Logged, commit_checkpoint_pending-Logged, commit_denial-Inv,
}
use murrmure.Kernel.Replay.Aggregates.{create_aggregate-Inv, take_transition-Inv}
use murrmure.Kernel.Replay.Keeps.{
  Keeps, Frames-Keeps, Keeps->>=, Keeps-if, drawn, drawn-Inv, deny_invalid-Keeps,
  deny_missing-Keeps, read-Keeps,
}

module _ (ports : Ports) where
  module _ (injective : Injective ports) (p : Provenance) where
    create_checked-Keeps :
        (command : CreateCommand) (artifact : RuleArtifact) (metadata : Option Fields)
        → Keeps ports (create_checked ports p command artifact metadata)
    create_checked-Keeps command artifact none = create_aggregate-Inv p injective command artifact
    create_checked-Keeps command artifact (some metadata) =
        let v = ports.validate artifact.metadata_schema metadata in
        Keeps-if ports (not v.valid) (deny_invalid ports p v "Invalid metadata" none)
          (create_aggregate ports p command artifact)
          (deny_invalid-Keeps ports p v "Invalid metadata" none)
          (create_aggregate-Inv p injective command artifact)

    pub handle_create-Keeps :
        (command : CreateCommand) → Keeps ports (handle_create ports p command)
    unfolding handle_create
    handle_create-Keeps command =
        Keeps->>= ports (load_rules ports command.rule_ref)
          (λ artifact. create_checked ports p command artifact command.metadata)
          (Frames-Keeps ports (load_rules ports command.rule_ref)
            (Frames-load_rules ports command.rule_ref))
          (λ artifact. create_checked-Keeps command artifact command.metadata)

    pause_transition-Keeps :
        (command : TransitionCommand) (transition : RuleTransition) (rule : CheckpointRule)
        (ts : String)
        → Keeps ports (pause_transition ports p command transition rule ts)
    unfolding pause_transition ulid
    pause_transition-Keeps command transition rule ts w i =
        let checkpoint_id = ports.ulid w.ids_taken in
        let w2 = record w { ids_taken = suc (suc w.ids_taken) } in
        let draft =
          build_entry p (ports.ulid (suc w.ids_taken)) ts EntryTypes.checkpoint_created success
            (field "checkpoint_id" (str checkpoint_id) (
              field "transition_id" (str transition.id)
                (field "from" (str transition.from) (field "to" (str transition.to) end))))
            (about command.aggregate_id) in
        let first : Frame w w2 = record {
          journal = refl;
          snapshots = refl;
          next_seq = refl;
          ids = omega arith;
        } in
        Inert-Inv
          (commit_checkpoint_pending-Logged p draft
            (checkpoint_from_transition checkpoint_id p.scope_id command.aggregate_id transition
              rule ts)
            w2)
          refl (Frame-Inv first i)

    -- The steps behind the lookup know the aggregate that was found.
    module _ (command : TransitionCommand) (aggregate : Aggregate) where
      abbrev KeepsFound : {A : Type 0} → M A → Type 0
      KeepsFound m =
          (w : World)
          → lookup command.aggregate_id w.store.snapshots ≡ some aggregate
          → Inv ports w
          → Inv ports (m w).1

      take_or_pause-Keeps :
          (artifact : RuleArtifact) (transition : RuleTransition) (ts : String)
          (rule : Option CheckpointRule)
          → KeepsFound (take_or_pause ports p command aggregate artifact transition ts rule)
      take_or_pause-Keeps artifact transition ts none w found i =
          take_transition-Inv p injective command aggregate artifact transition ts w found i
      take_or_pause-Keeps artifact transition ts (some rule) w found i =
          pause_transition-Keeps command transition rule ts w i

      perform_transition-Keeps :
          (artifact : RuleArtifact) (transition : RuleTransition)
          → KeepsFound (perform_transition ports p command aggregate artifact transition)
      unfolding perform_transition now_iso
      perform_transition-Keeps artifact transition w found i =
          elim (Bool-cases (not (int_eq command.expected_revision (pos aggregate.revision)))) [
            | inl stale ↦ rw stale (
                commit_denial-Inv ports p EntryTypes.revision_conflict DenialCodes.revision_conflict
                  (revision_message command.expected_revision aggregate.revision) conflict true none
                  (some command.aggregate_id) w i)
            | inr current ↦ rw current (
                take_or_pause-Keeps artifact transition (ports.now_iso w.clock_read)
                  transition.checkpoint (record w { clock_read = suc w.clock_read }) found
                  (Frame-Inv (Frames-now_iso ports w) i))
          ]

      perform_found-Keeps :
          (artifact : RuleArtifact) (transition : Option RuleTransition)
          → KeepsFound (perform_found ports p command aggregate artifact transition)
      unfolding deny_unmatched
      perform_found-Keeps artifact none w found i =
          commit_denial-Inv ports p EntryTypes.transition_denied DenialCodes.transition_denied
            (template ("No matching transition for event '" ∷ command.event ∷ "'" ∷ [])) conflict
            false
            (some (
              field "legal_transitions_for_actor"
                (arr (
                  legal_value (
                    find_legal_transitions_for_actor ports.condition aggregate p.actor_id
                      p.actor_kind artifact)))
                end))
            (some command.aggregate_id) w i
      perform_found-Keeps artifact (some transition) w found i =
          perform_transition-Keeps artifact transition w found i

      transition_of-Keeps : KeepsFound (transition_of ports p command aggregate)
      unfolding transition_of
      transition_of-Keeps w found i = elim (Option-cases (ports.load_rules aggregate.rule_ref)) [
        | inl e ↦ rw (e, load_rules) i
        | inr (artifact, e) ↦
            rw (e, load_rules)
              (perform_found-Keeps artifact
                (find_matching_transition ports.condition aggregate p.actor_id p.actor_kind artifact
                  command.event)
                w found i)
      ]

    pub handle_transition-Keeps :
        (command : TransitionCommand) → Keeps ports (handle_transition ports p command)
    unfolding handle_transition
    handle_transition-Keeps command =
        read-Keeps ports command.aggregate_id (transition_found ports p command) found
      where
        found :
            (w : World) (o : Option Aggregate)
            → lookup command.aggregate_id w.store.snapshots ≡ o
            → Inv ports w
            → Inv ports (transition_found ports p command o w).1
        found w none e i =
            deny_missing-Keeps ports p EntryTypes.transition_denied command.aggregate_id w i
        found w (some aggregate) e i = transition_of-Keeps command aggregate w e i

    append_event-Keeps : (command : EventAppendCommand) → Keeps ports (append_event ports p command)
    unfolding append_event now_iso ulid
    append_event-Keeps command w i =
        let draft =
          build_entry p (ports.ulid w.ids_taken) (ports.now_iso w.clock_read)
            EntryTypes.event_appended success
            (spread (field "type" (str command.event_type) end) (get_or command.payload end))
            (record { aggregate_id = some command.aggregate_id; kind = event; denial = none }) in
        Inert-Inv
          (commit_journal_only-Logged p draft (pure tt) "event_appended"
            (field "type" (str command.event_type) end) (drawn ports w) (Quiet-pure tt))
          refl (drawn-Inv ports w i)

    append_declared-Keeps :
        (command : EventAppendCommand) (declared : Option EventDeclaration)
        (payload : Option Fields)
        → Keeps ports (append_declared ports p command declared payload)
    unfolding append_declared
    append_declared-Keeps command none none =
        commit_denial-Inv ports p EntryTypes.validation_denied DenialCodes.validation_denied
          "Undeclared event" forbidden false none (some command.aggregate_id)
    append_declared-Keeps command none (some payload) =
        commit_denial-Inv ports p EntryTypes.validation_denied DenialCodes.validation_denied
          "Undeclared event" forbidden false none (some command.aggregate_id)
    append_declared-Keeps command (some declared) none = append_event-Keeps command
    append_declared-Keeps command (some declared) (some payload) =
        let v = ports.validate declared.schema payload in
        Keeps-if ports (not v.valid) (deny_invalid ports p v "Invalid" (some command.aggregate_id))
          (append_event ports p command)
          (deny_invalid-Keeps ports p v "Invalid" (some command.aggregate_id))
          (append_event-Keeps command)

    append_to-Keeps :
        (command : EventAppendCommand) (o : Option Aggregate)
        → Keeps ports (append_to ports p command o)
    unfolding append_to
    append_to-Keeps command none =
        deny_missing-Keeps ports p EntryTypes.validation_denied command.aggregate_id
    append_to-Keeps command (some aggregate) =
        let continue = λ (artifact : RuleArtifact).
          append_declared ports p command (declaration_of ports p command.event_type artifact)
            command.payload in
        Keeps->>= ports (load_rules ports aggregate.rule_ref) continue
          (Frames-Keeps ports (load_rules ports aggregate.rule_ref)
            (Frames-load_rules ports aggregate.rule_ref))
          (λ artifact.
            append_declared-Keeps command (declaration_of ports p command.event_type artifact)
              command.payload)

    pub handle_event_append-Keeps :
        (command : EventAppendCommand) → Keeps ports (handle_event_append ports p command)
    unfolding handle_event_append
    handle_event_append-Keeps command =
        read-Keeps ports command.aggregate_id (append_to ports p command)
          (λ w o e i. append_to-Keeps command o w i)
