-- ===== src/Kernel/Handlers/Waits.antt =====
-- packages/runtime-kernel/src/command/handler.ts: `handleWaitRegister`, `handleWaitCancel` and `registerBlockWait`.
use murrmure.Prelude.{ℕ, String, Option, none, some}
use murrmure.Dict.{string_key, lookup}
use murrmure.Json.{str, end, field}
use murrmure.Contracts.Results.{Provenance, CommandResult, denial_result, success, not_found}
use murrmure.Contracts.Results.DenialCodes
use murrmure.Contracts.Journal.EntryTypes
use murrmure.Contracts.Waits.{WaitCondition, WaitRow, pending, cancelled}
use murrmure.Contracts.Commands.{WaitRegisterCommand}
use murrmure.Store.Transaction.{put_wait}
use murrmure.Store.Port.{get_max_seq}
use murrmure.Kernel.Entries.{build_entry, no_options}
use murrmure.Kernel.Commit.{commit_journal_only}
use murrmure.Kernel.Registry.{register_deferred}
use murrmure.Kernel.World.{
  Ports, M, pure, gets, in_tx, run_in_transaction, on_registry, ulid, now_iso, ◌>>=◌, ◌>>◌,
}

abbrev pub wait_row :
    (wait_id scope_id : String) (aggregate_id : Option String)
    → WaitCondition
    → Option String
    → ℕ
    → String
    → WaitRow
wait_row wait_id scope_id aggregate_id condition bound_command_id max_seq ts = record {
  wait_id = wait_id;
  scope_id = scope_id;
  aggregate_id = aggregate_id;
  condition = condition;
  bound_command_id = bound_command_id;
  status = pending;
  registered_at_seq = max_seq;
  created_at = ts;
}

module _ (ports : Ports) (p : Provenance) where
  unfoldable pub register_block_wait : WaitCondition → String → M String
  unfolding put_wait get_max_seq register_deferred run_in_transaction on_registry ulid now_iso
  register_block_wait condition bound_command_id = do
    wait_id ← ulid ports
    ts ← now_iso ports
    max_seq ← gets get_max_seq
    run_in_transaction (
        in_tx (
          put_wait (
            wait_row wait_id p.scope_id p.aggregate_id condition (some bound_command_id) max_seq
              ts)))
    _ ← on_registry (register_deferred wait_id)
    pure wait_id

  unfoldable pub handle_wait_register : WaitRegisterCommand → M CommandResult
  unfolding put_wait get_max_seq commit_journal_only ulid now_iso
  handle_wait_register command = do
    wait_id ← ulid ports
    ts ← now_iso ports
    max_seq ← gets get_max_seq
    let row =
        wait_row wait_id p.scope_id command.aggregate_id command.condition command.bound_command_id
          max_seq ts
    entry_id ← ulid ports
    commit_journal_only p
        (build_entry p entry_id ts EntryTypes.wait_registered success
          (field "wait_id" (str wait_id) end)
          (record no_options { aggregate_id = command.aggregate_id }))
        (in_tx (put_wait row)) "wait_registered" (field "wait_id" (str wait_id) end)

  unfoldable pub cancel_wait : WaitRow → String → M CommandResult
  unfolding put_wait commit_journal_only ulid now_iso
  cancel_wait wait wait_id = do
    ts ← now_iso ports
    entry_id ← ulid ports
    commit_journal_only p
        (build_entry p entry_id ts EntryTypes.wait_cancelled success
          (field "wait_id" (str wait_id) end) no_options)
        (in_tx (put_wait (record wait { status = cancelled }))) "wait_cancelled"
        (field "wait_id" (str wait_id) end)

  abbrev pub cancel_found : String → Option WaitRow → M CommandResult
  cancel_found wait_id none =
      pure
        (denial_result DenialCodes.not_found (field "message" (str "Wait not found") end) not_found)
  cancel_found wait_id (some wait) = cancel_wait wait wait_id

  unfoldable pub handle_wait_cancel : String → M CommandResult
  unfolding cancel_wait run_in_transaction
  handle_wait_cancel wait_id = do
    found ← run_in_transaction (gets (λ s. lookup wait_id s.waits))
    cancel_found wait_id found
