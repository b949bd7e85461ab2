-- ===== src/Kernel/Handlers/Denials.antt =====
-- packages/runtime-kernel/src/command/handler.ts: the refusals that several handlers give.
use murrmure.Prelude.{String, false, Option, none, some}
use murrmure.Dict.{string_key}
use murrmure.Text.{join}
use murrmure.Contracts.Results.{Provenance, CommandResult, forbidden, not_found}
use murrmure.Contracts.Results.DenialCodes
use murrmure.Contracts.Journal.EntryTypes
use murrmure.Kernel.Commit.{commit_denial}
use murrmure.Kernel.World.{Ports, SchemaValidation, M}

-- `v.errors?.join("; ") ?? other`.
abbrev pub errors_text : SchemaValidation → String → String
errors_text v other = elim v.errors [ none ↦ other | some errors ↦ join "; " errors ]

module _ (ports : Ports) (p : Provenance) where
  abbrev pub deny_invalid : SchemaValidation → String → Option String → M CommandResult
  deny_invalid v other aggregate_id =
      commit_denial ports p EntryTypes.validation_denied DenialCodes.validation_denied
        (errors_text v other) forbidden false none aggregate_id

  abbrev pub deny_missing : String → String → M CommandResult
  deny_missing type aggregate_id =
      commit_denial ports p type DenialCodes.not_found "Aggregate not found" not_found false none
        (some aggregate_id)
