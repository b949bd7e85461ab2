-- ===== src/Kernel/Entries.antt =====
-- packages/runtime-kernel/src/journal/build-entry.ts.
use murrmure.Prelude.{ℕ, String, Bool, Option, none, some, non_empty}
use murrmure.Json.{Fields, end}
use murrmure.Contracts.Results.{Provenance, Outcome, denial, HttpSemantic, CommandResult}
use murrmure.Contracts.Journal.{EntryKind, command, JournalDenial, JournalEntryDraft}

-- The optional `aggregate_id`, `kind` and `denial`; a kind left out is `command`.
pub record EntryOptions : Type 0 where
  pub aggregate_id : Option String
  pub kind : EntryKind
  pub denial : Option JournalDenial

abbrev pub no_options : EntryOptions
no_options = record { aggregate_id = none; kind = command; denial = none }

abbrev pub about : String → EntryOptions
about aggregate_id = record no_options { aggregate_id = some aggregate_id }

abbrev pub build_entry :
    Provenance → (entry_id ts type : String) → Outcome → Fields → EntryOptions → JournalEntryDraft
build_entry p entry_id ts type outcome payload opts = record {
  entry_id = entry_id;
  kind = opts.kind;
  outcome = outcome;
  scope_id = p.scope_id;
  aggregate_id = opts.aggregate_id;
  actor_id = p.actor_id;
  credential_id = p.credential_id;
  command_id = p.command_id;
  ts = ts;
  type = type;
  payload = payload;
  denial = opts.denial;
  correlation = non_empty p.command_id;
}

abbrev pub build_denial_entry :
    Provenance
    → (entry_id ts type code message : String) → (retryable : Bool) → (context : Option Fields)
    → (aggregate_id : Option String) → JournalEntryDraft
build_denial_entry p entry_id ts type code message retryable context aggregate_id =
    build_entry p entry_id ts type denial end (record {
      aggregate_id = aggregate_id;
      kind = command;
      denial =
          some
            (record { code = code; message = message; retryable = retryable; context = context });
    })

abbrev pub result_from_entry :
    (entry_id : String) (seq : ℕ) (code : String) → Fields → HttpSemantic → Outcome → CommandResult
result_from_entry entry_id seq code body http_semantic outcome = record {
  outcome = outcome;
  http_semantic = http_semantic;
  code = code;
  body = body;
  journal_entry_id = some entry_id;
  seq = some seq;
}
