-- ===== src/Kernel/Commit.antt =====
-- packages/runtime-kernel/src/command/handler.ts: the four ways to commit a command's outcome.
use murrmure.Prelude.{ℕ, String, Bool, true, Option, none, some, non_empty, get_or}
use murrmure.Prelude.Int.{ℤ}
use murrmure.Dict.{string_key, lookup}
use murrmure.Json.{Fields, str, end, field, obj_or_undefined}
use murrmure.Contracts.Results.{
  Provenance, CommandResult, success, denial, HttpSemantic, http_ok, accepted, conflict,
}
use murrmure.Contracts.Results.DenialCodes
use murrmure.Contracts.Journal.EntryTypes
use murrmure.Contracts.Journal.{JournalEntryDraft}
use murrmure.Contracts.Aggregates.{Aggregate, Checkpoint}
use murrmure.Store.Transaction.{
  Insertion, inserted, exists_already, Cas, cas_ok, cas_conflict, append_journal, insert_outbox,
  insert_idempotency, upsert_snapshot_if_revision, upsert_checkpoint,
}
use murrmure.Kernel.Entries.{build_denial_entry, result_from_entry}
use murrmure.Kernel.World.{
  Ports, M, pure, gets, in_tx, run_in_transaction, ulid, now_iso, ◌>>=◌, ◌>>◌,
}

-- The stored result if the command id is taken, else the new one: the end of each commit.
abbrev pub settle_idempotency : String → CommandResult → Insertion → M CommandResult
settle_idempotency command_id result inserted = pure result
settle_idempotency command_id result exists_already =
    gets (λ s. get_or (lookup command_id s.idempotency) result)

abbrev pub remember_under : Option String → CommandResult → M CommandResult
remember_under none result = pure result
remember_under (some command_id) result = do
  ins ← in_tx (insert_idempotency command_id result)
  settle_idempotency command_id result ins

unfoldable pub remember : Provenance → CommandResult → M CommandResult
unfolding insert_idempotency
remember p result = remember_under (non_empty p.command_id) result

-- The journal entry and its outbox row.
unfoldable pub journal_entry : JournalEntryDraft → M ℕ
unfolding append_journal insert_outbox
journal_entry draft = do
  allocated ← in_tx (append_journal draft)
  in_tx (insert_outbox allocated.seq)
  pure allocated.seq

module _ (p : Provenance) where
  unfoldable pub commit_checkpoint_pending : JournalEntryDraft → Checkpoint → M CommandResult
  unfolding remember journal_entry upsert_checkpoint run_in_transaction
  commit_checkpoint_pending draft checkpoint = run_in_transaction (do
    seq ← journal_entry draft
    in_tx (upsert_checkpoint checkpoint)
    remember p (
        result_from_entry draft.entry_id seq DenialCodes.checkpoint_pending
          (field "checkpoint_id" (str checkpoint.checkpoint_id) (
            field "aggregate_id" (str checkpoint.aggregate_id)
              (field "transition_id" (str checkpoint.transition_id) end)))
          accepted success))

  unfoldable pub commit_journal_only :
      JournalEntryDraft → M (Unit {0}) → String → Fields → M CommandResult
  unfolding remember journal_entry run_in_transaction
  commit_journal_only draft extra code body = run_in_transaction (do
    seq ← journal_entry draft
    extra
    remember p (result_from_entry draft.entry_id seq code body http_ok success))

module _ (ports : Ports) (p : Provenance) where
  -- The branch of `commitSuccess` in which the revision has changed.
  unfoldable pub commit_conflict : Aggregate → M CommandResult
  unfolding remember journal_entry ulid now_iso
  commit_conflict aggregate = do
    entry_id ← ulid ports
    ts ← now_iso ports
    let draft =
        build_denial_entry p entry_id ts EntryTypes.revision_conflict DenialCodes.revision_conflict
          "Revision conflict" true none (some aggregate.aggregate_id)
    seq ← journal_entry draft
    remember p (
        result_from_entry draft.entry_id seq DenialCodes.revision_conflict
          (field "message" (str "Revision conflict") end) conflict denial)

  abbrev pub settle_cas :
      JournalEntryDraft → Aggregate → String → Fields → ℕ → Cas → M CommandResult
  settle_cas draft aggregate code body seq cas_conflict = commit_conflict aggregate
  settle_cas draft aggregate code body seq cas_ok =
      remember p (result_from_entry draft.entry_id seq code body http_ok success)

  unfoldable pub commit_success :
      JournalEntryDraft → Aggregate → ℤ → String → Fields → M CommandResult
  unfolding commit_conflict remember journal_entry upsert_snapshot_if_revision run_in_transaction
  commit_success draft aggregate expected_revision code body = run_in_transaction (do
    seq ← journal_entry draft
    cas ← in_tx (upsert_snapshot_if_revision aggregate expected_revision)
    settle_cas draft aggregate code body seq cas)

  unfoldable pub commit_denial :
      (type code message : String)
      → HttpSemantic
      → (retryable : Bool) → Option Fields
      → Option String
      → M CommandResult
  unfolding remember journal_entry ulid now_iso run_in_transaction
  commit_denial type code message http_semantic retryable context aggregate_id =
      run_in_transaction (do
        entry_id ← ulid ports
        ts ← now_iso ports
        let draft =
            build_denial_entry p entry_id ts type code message retryable context aggregate_id
        seq ← journal_entry draft
        remember p (
            result_from_entry draft.entry_id seq code
              (field "message" (str message) (field "context" (obj_or_undefined context) end))
              http_semantic denial))
