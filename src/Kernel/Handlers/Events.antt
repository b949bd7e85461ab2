-- ===== src/Kernel/Handlers/Events.antt =====
-- packages/runtime-kernel/src/command/handler.ts: `handleEventAppend`.
use murrmure.Prelude.{String, false, not, Option, none, some, ◌==◌, if◌then◌else◌, get_or, find}
use murrmure.Dict.{string_key, lookup}
use murrmure.Json.{Fields, str, end, field, spread}
use murrmure.Contracts.Results.{Provenance, CommandResult, success, forbidden}
use murrmure.Contracts.Results.DenialCodes
use murrmure.Contracts.Journal.{event}
use murrmure.Contracts.Journal.EntryTypes
use murrmure.Contracts.Rules.{RuleArtifact, EventDeclaration}
use murrmure.Contracts.Aggregates.{Aggregate}
use murrmure.Contracts.Commands.{EventAppendCommand}
use murrmure.Kernel.Entries.{build_entry}
use murrmure.Kernel.Commit.{commit_journal_only, commit_denial}
use murrmure.Kernel.World.{
  Ports, M, pure, gets, run_in_transaction, ulid, now_iso, load_rules, ◌>>=◌,
}
use murrmure.Kernel.Handlers.Denials.{deny_invalid, deny_missing}

module _ (ports : Ports) (p : Provenance) where
  unfoldable pub append_event : EventAppendCommand → M CommandResult
  unfolding commit_journal_only ulid now_iso
  append_event command = do
    ts ← now_iso ports
    entry_id ← ulid ports
    commit_journal_only p
        (build_entry p entry_id ts EntryTypes.event_appended success
          (spread (field "type" (str command.event_type) end) (get_or command.payload end))
          (record { aggregate_id = some command.aggregate_id; kind = event; denial = none }))
        (pure tt) "event_appended" (field "type" (str command.event_type) end)

  -- The event must be declared, and its payload is validated, if there is one.
  unfoldable pub append_declared :
      EventAppendCommand → Option EventDeclaration → Option Fields → M CommandResult
  unfolding append_event commit_denial
  append_declared command none none =
      commit_denial ports p EntryTypes.validation_denied DenialCodes.validation_denied
        "Undeclared event" forbidden false none (some command.aggregate_id)
  append_declared command none (some payload) =
      commit_denial ports p EntryTypes.validation_denied DenialCodes.validation_denied
        "Undeclared event" forbidden false none (some command.aggregate_id)
  append_declared command (some declared) none = append_event command
  append_declared command (some declared) (some payload) =
      let v = ports.validate declared.schema payload in
      if not v.valid
      then deny_invalid ports p v "Invalid" (some command.aggregate_id)
      else append_event command

  abbrev pub declaration_of : String → RuleArtifact → Option EventDeclaration
  declaration_of event_type artifact = elim artifact.declarations [
    | none ↦ none
    | some declarations ↦ find (λ d. d.type == event_type) declarations
  ]

  unfoldable pub append_to : EventAppendCommand → Option Aggregate → M CommandResult
  unfolding append_declared commit_denial load_rules
  append_to command none = deny_missing ports p EntryTypes.validation_denied command.aggregate_id
  append_to command (some aggregate) = do
    artifact ← load_rules ports aggregate.rule_ref
    append_declared command (declaration_of command.event_type artifact) command.payload

  unfoldable pub handle_event_append : EventAppendCommand → M CommandResult
  unfolding append_to run_in_transaction
  handle_event_append command = do
    found ← run_in_transaction (gets (λ s. lookup command.aggregate_id s.snapshots))
    append_to command found
