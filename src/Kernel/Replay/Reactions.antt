-- ===== src/Kernel/Replay/Reactions.antt =====
-- The commands on reactions keep the invariant.
use murrmure.Prelude.{
  ℕ, ◌+◌, ◌*◌, String, refl, true, false, not, Option, none, some, if◌then◌else◌, find, ◌==◌,
}
use murrmure.Dict.{string_key, lookup}
use murrmure.Json.{field, str, end}
use murrmure.Contracts.Results.{Provenance, success, success_result}
use murrmure.Contracts.Journal.{JournalEntry}
use murrmure.Contracts.Journal.EntryTypes
use murrmure.Contracts.Reactions.{ReactionSpecInput, ReactionSpec}
use murrmure.Contracts.Commands.{ReactionReplayCommand}
use murrmure.Store.State.{MemoryStoreState}
use murrmure.Store.Transaction.{Insertion, insert_reaction, insert_dedup, append_delivery_log}
use murrmure.Store.Port.{get_max_seq, tail_journal, default_limit}
use murrmure.Kernel.Entries.{build_entry, no_options}
use murrmure.Kernel.Commit.{commit_journal_only}
use murrmure.Kernel.ReactionMatch.{dedup_fingerprint}
use murrmure.Kernel.Fanout.{is_duplicate, delivery, outcome_of}
use murrmure.Kernel.Handlers.Reactions.{
  disable, handle_reaction_register, handle_reaction_disable, replay, replay_checked, replay_source,
  replay_reaction, handle_reaction_replay, not_found_result,
}
use murrmure.Kernel.World.{
  Ports, ActionOutcome, ActionContext, pure, ◌>>=◌, ◌>>◌, gets, in_tx, run_in_transaction, ulid,
  now_iso, date_after, invoke_action,
}
use murrmure.Kernel.Frame.Calculus.{
  Frames, Quiet-pure, Quiet->>=, Frames-pure, Frames->>=, Frames-if, Frames-run_in_transaction,
}
use murrmure.Kernel.Frame.Store.{
  Quiet-in_tx, Quiet-date_after, Frames-gets, Frames-date_after, Frames-invoke_action,
  insert_reaction-Leaves, insert_dedup-Leaves, append_delivery_log-Leaves,
}
use murrmure.Kernel.Replay.Keeps.{Keeps, Frames-Keeps, Keeps->>=}
use murrmure.Kernel.Replay.Waits.{journal_only-Keeps, dated-Keeps}

-- `find` over the journal, and the deduplication, change nothing that the invariant reads.
module _ (ports : Ports) (p : Provenance) where
  pub handle_reaction_register-Keeps :
      (spec : ReactionSpecInput) → Keeps ports (handle_reaction_register ports p spec)
  unfolding handle_reaction_register
  handle_reaction_register-Keeps spec =
      let reaction = λ (max_seq : ℕ).
        insert_reaction (record { spec = spec; registered_at_seq = max_seq + 1; enabled = true }) in
      let draft = λ (ts entry_id : String).
        build_entry p entry_id ts EntryTypes.reaction_registered success
          (field "reaction_id" (str spec.reaction_id) end) no_options in
      let last = λ (max_seq : ℕ) (ts entry_id : String).
        commit_journal_only p (draft ts entry_id) (in_tx (reaction max_seq)) "reaction_registered"
          (field "reaction_id" (str spec.reaction_id) end) in
      Keeps->>= ports (gets get_max_seq)
        (λ max_seq. now_iso ports >>= (λ ts. ulid ports >>= last max_seq ts))
        (Frames-Keeps ports (gets get_max_seq) (Frames-gets get_max_seq))
        (λ max_seq. dated-Keeps ports p (last max_seq) (λ ts entry_id.
          journal_only-Keeps ports p (draft ts entry_id) (in_tx (reaction max_seq))
            "reaction_registered" (field "reaction_id" (str spec.reaction_id) end)
            (Quiet-in_tx (reaction max_seq) (
              insert_reaction-Leaves
                (record { spec = spec; registered_at_seq = max_seq + 1; enabled = true })))
            refl))

  Frames-disable : (o : Option ReactionSpec) → Frames (disable ports p o)
  Frames-disable none = Frames-pure tt
  Frames-disable (some reaction) =
      let op = insert_reaction (record reaction { enabled = false }) in
      Frames-run_in_transaction (in_tx op)
        (Quiet-in_tx op (insert_reaction-Leaves (record reaction { enabled = false })))

  pub handle_reaction_disable-Keeps :
      (id : String) → Keeps ports (handle_reaction_disable ports p id)
  unfolding handle_reaction_disable
  handle_reaction_disable-Keeps id =
      let draft = λ (ts entry_id : String).
        build_entry p entry_id ts EntryTypes.reaction_disabled success
          (field "reaction_id" (str id) end) no_options in
      let last = λ (ts entry_id : String).
        commit_journal_only p (draft ts entry_id) (pure tt) "reaction_disabled"
          (field "reaction_id" (str id) end) in
      let rest = now_iso ports >>= (λ ts. ulid ports >>= last ts) in
      let read = gets (λ (s : MemoryStoreState). lookup id s.reactions) in
      Keeps->>= ports read (λ found. disable ports p found >> rest)
        (Frames-Keeps ports read (Frames-gets (λ s. lookup id s.reactions)))
        (λ found.
          Keeps->>= ports (disable ports p found) (λ _. rest)
            (Frames-Keeps ports (disable ports p found) (Frames-disable found))
            (λ _. dated-Keeps ports p last (λ ts entry_id.
              journal_only-Keeps ports p (draft ts entry_id) (pure tt) "reaction_disabled"
                (field "reaction_id" (str id) end) (Quiet-pure tt) refl)))

  module _ (command : ReactionReplayCommand) where
    Frames-replay :
        (reaction : ReactionSpec) (source : JournalEntry)
        → Frames (replay ports p command reaction source)
    unfolding replay
    Frames-replay reaction source =
        let ctx : ActionContext = record {
          entry = source;
          reaction_id = reaction.reaction_id;
          attempt_no = 1;
        } in
        let log = λ (outcome : ActionOutcome).
          delivery reaction source (dedup_fingerprint reaction source) (outcome_of outcome) in
        let write = λ (outcome : ActionOutcome).
          run_in_transaction (in_tx (append_delivery_log (log outcome))) in
        let reply = pure (
          success_result "reaction_replayed" (
            field "reaction_id" (str command.reaction_id)
              (field "reason" (str command.reason) end))) in
        Frames->>= (invoke_action ports reaction.action ctx) (λ outcome. write outcome >> reply)
          (Frames-invoke_action ports reaction.action ctx)
          (λ outcome.
            Frames->>= (write outcome) (λ _. reply)
              (Frames-run_in_transaction (in_tx (append_delivery_log (log outcome))) (
                Quiet-in_tx (append_delivery_log (log outcome))
                  (append_delivery_log-Leaves (log outcome))))
              (λ _. λ w.
                Frames-pure
                  (success_result "reaction_replayed" (
                    field "reaction_id" (str command.reaction_id)
                      (field "reason" (str command.reason) end)))
                  w))

    Frames-replay_checked :
        (reaction : ReactionSpec) (source : JournalEntry)
        → Frames (replay_checked ports p command reaction source)
    unfolding replay_checked
    Frames-replay_checked reaction source =
        let key = dedup_fingerprint reaction source in
        let mark = λ (expires now : String). in_tx (insert_dedup now key expires) in
        let dedup = λ (expires : String). date_after ports 0 >>= mark expires in
        let next = λ (duplicate : Insertion).
          if is_duplicate reaction duplicate
          then pure (success_result "dedup_skipped" (field "reason" (str command.reason) end))
          else replay ports p command reaction source in
        let window = reaction.dedup.window_seconds * 1000 in
        Frames->>= (date_after ports window)
          (λ expires. run_in_transaction (dedup expires) >>= next) (Frames-date_after ports window)
          (λ expires.
            Frames->>= (run_in_transaction (dedup expires)) next
              (Frames-run_in_transaction (dedup expires) (
                Quiet->>= (date_after ports 0) (mark expires) (Quiet-date_after ports 0) (λ now.
                  Quiet-in_tx (insert_dedup now key expires)
                    (insert_dedup-Leaves now key expires))))
              (λ duplicate.
                Frames-if (is_duplicate reaction duplicate)
                  (pure (success_result "dedup_skipped" (field "reason" (str command.reason) end)))
                  (replay ports p command reaction source)
                  (Frames-pure
                    (success_result "dedup_skipped" (field "reason" (str command.reason) end)))
                  (Frames-replay reaction source)))

    Frames-replay_source :
        (reaction : ReactionSpec) (o : Option JournalEntry)
        → Frames (replay_source ports p command reaction o)
    Frames-replay_source reaction none = Frames-pure (not_found_result "Source entry not found")
    Frames-replay_source reaction (some source) =
        Frames-if (not command.bypass_dedup) (replay_checked ports p command reaction source)
          (replay ports p command reaction source) (Frames-replay_checked reaction source)
          (Frames-replay reaction source)

    Frames-replay_reaction : (o : Option ReactionSpec) → Frames (replay_reaction ports p command o)
    unfolding tail_journal
    Frames-replay_reaction none = Frames-pure (not_found_result "Reaction not found")
    Frames-replay_reaction (some reaction) =
        Frames->>= (gets (tail_journal 0 default_limit))
          (λ journal.
            replay_source ports p command reaction
              (find (λ e. e.entry_id == command.source_entry_id) journal))
          (Frames-gets (tail_journal 0 default_limit))
          (λ journal.
            Frames-replay_source reaction
              (find (λ e. e.entry_id == command.source_entry_id) journal))

    pub Frames-handle_reaction_replay : Frames (handle_reaction_replay ports p command)
    unfolding handle_reaction_replay
    Frames-handle_reaction_replay =
        Frames->>= (gets (λ s. lookup command.reaction_id s.reactions))
          (replay_reaction ports p command)
          (Frames-gets (λ s. lookup command.reaction_id s.reactions)) Frames-replay_reaction
