-- ===== src/Kernel/Handlers/Reactions.antt =====
-- packages/runtime-kernel/src/command/handler.ts: `handleReactionRegister`, `handleReactionDisable` and `handleReactionReplay`.
use murrmure.Prelude.{
  ◌+◌, ◌*◌, String, true, false, not, Option, none, some, ◌==◌, if◌then◌else◌, find,
}
use murrmure.Dict.{string_key, lookup}
use murrmure.Json.{str, end, field}
use murrmure.Contracts.Results.{
  Provenance, CommandResult, success_result, denial_result, success, not_found,
}
use murrmure.Contracts.Results.DenialCodes
use murrmure.Contracts.Journal.{JournalEntry}
use murrmure.Contracts.Journal.EntryTypes
use murrmure.Contracts.Reactions.{ReactionSpecInput, ReactionSpec}
use murrmure.Contracts.Commands.{ReactionReplayCommand}
use murrmure.Store.Transaction.{insert_reaction, insert_dedup, append_delivery_log}
use murrmure.Store.Port.{get_max_seq, tail_journal, default_limit}
use murrmure.Kernel.Entries.{build_entry, no_options}
use murrmure.Kernel.Commit.{commit_journal_only}
use murrmure.Kernel.ReactionMatch.{dedup_fingerprint}
use murrmure.Kernel.Fanout.{is_duplicate, delivery, outcome_of}
use murrmure.Kernel.World.{
  Ports, M, pure, gets, in_tx, run_in_transaction, ulid, now_iso, date_after, invoke_action, ◌>>=◌,
  ◌>>◌,
}

abbrev pub not_found_result : String → CommandResult
not_found_result message =
    denial_result DenialCodes.not_found (field "message" (str message) end) not_found

module _ (ports : Ports) (p : Provenance) where
  unfoldable pub handle_reaction_register : ReactionSpecInput → M CommandResult
  unfolding get_max_seq insert_reaction commit_journal_only ulid now_iso
  handle_reaction_register spec = do
    max_seq ← gets get_max_seq
    ts ← now_iso ports
    entry_id ← ulid ports
    commit_journal_only p
        (build_entry p entry_id ts EntryTypes.reaction_registered success
          (field "reaction_id" (str spec.reaction_id) end) no_options)
        (in_tx (
          insert_reaction
            (record { spec = spec; registered_at_seq = max_seq + 1; enabled = true })))
        "reaction_registered" (field "reaction_id" (str spec.reaction_id) end)

  abbrev pub disable : Option ReactionSpec → M (Unit {0})
  disable none = pure tt
  disable (some reaction) =
      run_in_transaction (in_tx (insert_reaction (record reaction { enabled = false })))

  unfoldable pub handle_reaction_disable : String → M CommandResult
  unfolding insert_reaction commit_journal_only run_in_transaction ulid now_iso
  handle_reaction_disable reaction_id = do
    found ← gets (λ s. lookup reaction_id s.reactions)
    disable found
    ts ← now_iso ports
    entry_id ← ulid ports
    commit_journal_only p
        (build_entry p entry_id ts EntryTypes.reaction_disabled success
          (field "reaction_id" (str reaction_id) end) no_options)
        (pure tt) "reaction_disabled" (field "reaction_id" (str reaction_id) end)

  -- The action again, and a log entry of its outcome.
  unfoldable pub replay : ReactionReplayCommand → ReactionSpec → JournalEntry → M CommandResult
  unfolding append_delivery_log run_in_transaction invoke_action
  replay command reaction source = do
    outcome ←
        invoke_action ports reaction.action
          (record { entry = source; reaction_id = reaction.reaction_id; attempt_no = 1 })
    run_in_transaction (
        in_tx (
          append_delivery_log
            (delivery reaction source (dedup_fingerprint reaction source) (outcome_of outcome))))
    pure (
        success_result "reaction_replayed"
          (field "reaction_id" (str command.reaction_id) (field "reason" (str command.reason) end)))

  unfoldable pub replay_checked :
      ReactionReplayCommand → ReactionSpec → JournalEntry → M CommandResult
  unfolding replay insert_dedup run_in_transaction date_after
  replay_checked command reaction source = do
    expires ← date_after ports (reaction.dedup.window_seconds * 1000)
    dedup ← run_in_transaction (do
      now ← date_after ports 0
      in_tx (insert_dedup now (dedup_fingerprint reaction source) expires))
    if is_duplicate reaction dedup
        then pure (success_result "dedup_skipped" (field "reason" (str command.reason) end))
        else replay command reaction source

  abbrev pub replay_source :
      ReactionReplayCommand → ReactionSpec → Option JournalEntry → M CommandResult
  replay_source command reaction none = pure (not_found_result "Source entry not found")
  replay_source command reaction (some source) =
      if not command.bypass_dedup
      then replay_checked command reaction source
      else replay command reaction source

  abbrev pub replay_reaction : ReactionReplayCommand → Option ReactionSpec → M CommandResult
  replay_reaction command none = pure (not_found_result "Reaction not found")
  replay_reaction command (some reaction) = do
    journal ← gets (tail_journal 0 default_limit)
    replay_source command reaction (find (λ e. e.entry_id == command.source_entry_id) journal)

  unfoldable pub handle_reaction_replay : ReactionReplayCommand → M CommandResult
  unfolding replay_checked replay tail_journal
  handle_reaction_replay command = do
    found ← gets (λ s. lookup command.reaction_id s.reactions)
    replay_reaction command found
