-- ===== src/Kernel/Handlers/Create.antt =====
-- packages/runtime-kernel/src/command/handler.ts: `handleCreate`.
use murrmure.Prelude.{String, not, Option, none, some, if◌then◌else◌, get_or}
use murrmure.Prelude.Int.{negsuc}
use murrmure.Dict.{string_key}
use murrmure.Json.{Fields, num, str, obj, end, field}
use murrmure.Contracts.Results.{Provenance, CommandResult, success, active}
use murrmure.Contracts.Journal.EntryTypes
use murrmure.Contracts.Rules.{RuleArtifact}
use murrmure.Contracts.Aggregates.{Aggregate}
use murrmure.Contracts.Commands.{CreateCommand}
use murrmure.Kernel.Fold.{rule_ref_value}
use murrmure.Kernel.Entries.{build_entry, about}
use murrmure.Kernel.Commit.{commit_success, commit_denial}
use murrmure.Kernel.World.{Ports, M, ulid, now_iso, load_rules, ◌>>=◌}
use murrmure.Kernel.Handlers.Denials.{deny_invalid}

abbrev pub created_aggregate :
    Provenance → CreateCommand → RuleArtifact → (aggregate_id ts : String) → Aggregate
created_aggregate p command artifact aggregate_id ts = record {
  aggregate_id = aggregate_id;
  scope_id = p.scope_id;
  rule_ref = command.rule_ref;
  state = artifact.initial_state;
  metadata = get_or command.metadata end;
  revision = 0;
  status = active;
  created_at = ts;
  updated_at = ts;
}

abbrev pub created_payload : CreateCommand → RuleArtifact → Fields
created_payload command artifact = field "rule_ref" (rule_ref_value command.rule_ref) (
    field "initial_state" (str artifact.initial_state) (
      field "status" (str "active")
        (field "metadata" (obj (get_or command.metadata end)) (field "revision" (num 0) end))))

module _ (ports : Ports) (p : Provenance) where
  -- The part of `handleCreate` behind the validation.
  unfoldable pub create_aggregate : CreateCommand → RuleArtifact → M CommandResult
  unfolding commit_success ulid now_iso
  create_aggregate command artifact = do
    aggregate_id ← ulid ports
    ts ← now_iso ports
    entry_id ← ulid ports
    commit_success ports p
        (build_entry p entry_id ts EntryTypes.aggregate_created success
          (created_payload command artifact) (about aggregate_id))
        (created_aggregate p command artifact aggregate_id ts) (negsuc 0) "aggregate_created"
        (field "aggregate_id" (str aggregate_id)
          (field "state" (str artifact.initial_state) (field "revision" (num 0) end)))

  abbrev pub create_checked : CreateCommand → RuleArtifact → Option Fields → M CommandResult
  create_checked command artifact none = create_aggregate command artifact
  create_checked command artifact (some metadata) =
      let v = ports.validate artifact.metadata_schema metadata in
      if not v.valid
      then deny_invalid ports p v "Invalid metadata" none
      else create_aggregate command artifact

  unfoldable pub handle_create : CreateCommand → M CommandResult
  unfolding create_aggregate commit_denial load_rules
  handle_create command = do
    artifact ← load_rules ports command.rule_ref
    create_checked command artifact command.metadata
