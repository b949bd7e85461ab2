-- ===== src/Kernel/Execute.antt =====
-- packages/runtime-kernel/src/command/handler.ts: `RuntimeKernel.execute`, and the queries.
use murrmure.Prelude.{
  ℕ, String, true, false, not, Option, none, some, if◌then◌else◌, get_or, non_empty,
}
use murrmure.Dict.{string_key, nat_key, lookup}
use murrmure.Json.{Fields, bool, str, end, field, put}
use murrmure.Contracts.Results.{
  agent, Provenance, CommandResult, success, forbidden, success_result,
}
use murrmure.Contracts.Results.DenialCodes
use murrmure.Contracts.Journal.{JournalEntry, event}
use murrmure.Contracts.Journal.EntryTypes
use murrmure.Contracts.Waits.{WaitCondition, WaitResolution, matched, denied}
use murrmure.Contracts.Commands.{
  KernelCommand, CommandKind, aggregate_create, state_transition, event_append, wait_register,
  wait_cancel, reaction_register, reaction_disable, reaction_replay,
}
use murrmure.Store.Port.{get_max_seq, tail_journal, default_limit, ack_fanout}
use murrmure.Kernel.Entries.{build_entry}
use murrmure.Kernel.Fold.{is_success}
use murrmure.Kernel.Commit.{commit_denial, journal_entry}
use murrmure.Kernel.Fanout.{dispatch_fanout}
use murrmure.Kernel.Registry.{register_deferred, settlement}
use murrmure.Kernel.Handlers.Create.{handle_create}
use murrmure.Kernel.Handlers.Transitions.{handle_transition}
use murrmure.Kernel.Handlers.Events.{handle_event_append}
use murrmure.Kernel.Handlers.Waits.{register_block_wait, handle_wait_register, handle_wait_cancel}
use murrmure.Kernel.Handlers.Reactions.{
  handle_reaction_register, handle_reaction_disable, handle_reaction_replay,
}
use murrmure.Kernel.World.{
  Ports, PolicyResult, M, pure, gets, modify, run_in_transaction, for_each, on_registry, ulid,
  now_iso, date_after, ◌>>=◌, ◌>>◌,
}

abbrev pub kind_text : CommandKind → String
kind_text (aggregate_create _) = "aggregate.create"
kind_text (state_transition _) = "state.transition"
kind_text (event_append _) = "event.append"
kind_text (wait_register _) = "wait.register"
kind_text (wait_cancel _) = "wait.cancel"
kind_text (reaction_register _) = "reaction.register"
kind_text (reaction_disable _) = "reaction.disable"
kind_text (reaction_replay _) = "reaction.replay"

abbrev pub block_on : CommandKind → Option WaitCondition
block_on (state_transition command) = command.block_on
block_on _ = none

-- What the caller gets: a result, or a promise that is settled later, with the result that the
-- command had.
pub data Reply : Type 0 where
  returned : CommandResult → Reply
  waiting : (promise : ℕ) → CommandResult → Reply

-- The id of the wait that a blocking command registered, and the promise that it awaits.
abbrev pub Block : Type 0
Block = Option (String × ℕ)

abbrev pub denial_of : CommandResult → Option CommandResult
denial_of result = if is_success result.outcome then none else some result

abbrev pub replayed : CommandResult → CommandResult
replayed existing = record existing {
  code = DenialCodes.idempotency_replay;
  body = put "replay" (bool true) existing.body;
}

abbrev pub block_wait_id : Block → Option String
block_wait_id none = none
block_wait_id (some b) = some b.0

-- The reply to an awaited resolution: `result` itself, if it is neither a match nor a denial.
unfoldable pub reply_of : CommandResult → WaitResolution → CommandResult
reply_of result resolution = elim resolution.status [
  | denied ↦ get_or resolution.denial result
  | matched ↦ elim resolution.entry [
    | none ↦ result
    | some entry ↦
        success_result "wait_matched"
          (field "wait_id" (str resolution.wait_id) (field "entry_type" (str entry.type) end))
  ]
  | _ ↦ result
]

abbrev pub reply_now : ℕ → CommandResult → Option WaitResolution → Reply
reply_now promise result none = waiting promise result
reply_now promise result (some resolution) = returned (reply_of result resolution)

abbrev pub await_block : Block → CommandResult → M Reply
await_block none result w = pure (returned result) w
await_block (some b) result w = pure (reply_now b.1 result (settlement b.1 w.registry)) w

-- Who appends to the journal of a space.
abbrev pub space_provenance : (scope_id actor_id credential_id : String) → Provenance
space_provenance scope_id actor_id credential_id = record {
  scope_id = scope_id;
  actor_id = actor_id;
  credential_id = credential_id;
  aggregate_id = none;
  command_id = none;
  actor_kind = some agent;
}

module _ (ports : Ports) where
  abbrev pub with_command_id : Provenance → Option String → M Provenance
  with_command_id p none = do
    command_id ← ulid ports
    pure (record p { command_id = some command_id })
  with_command_id p (some command_id) = pure p

  unfoldable pub ensure_provenance : KernelCommand → M Provenance
  unfolding ulid
  ensure_provenance command = with_command_id command.provenance command.provenance.command_id

  -- The `switch` over the kinds.
  unfoldable pub handle : CommandKind → Provenance → M CommandResult
  unfolding handle_create handle_transition handle_event_append handle_wait_register
      handle_wait_cancel handle_reaction_register handle_reaction_disable handle_reaction_replay
  handle (aggregate_create command) p = handle_create ports p command
  handle (state_transition command) p = handle_transition ports p command
  handle (event_append command) p = handle_event_append ports p command
  handle (wait_register command) p = handle_wait_register ports p command
  handle (wait_cancel wait_id) p = handle_wait_cancel ports p wait_id
  handle (reaction_register spec) p = handle_reaction_register ports p spec
  handle (reaction_disable reaction_id) p = handle_reaction_disable ports p reaction_id
  handle (reaction_replay command) p = handle_reaction_replay ports p command

  abbrev pub block_with : Provenance → Option WaitCondition → Option String → M Block
  block_with p (some condition) (some command_id) = do
    wait_id ← register_block_wait ports p condition command_id
    promise ← on_registry (register_deferred wait_id)
    pure (some (wait_id, promise))
  block_with p _ _ = pure none

  -- A blocking command registers its wait first, and defers it a second time.
  unfoldable pub register_block : CommandKind → Provenance → M Block
  unfolding register_block_wait register_deferred on_registry
  register_block kind p = block_with p (block_on kind) (non_empty p.command_id)

  abbrev pub acknowledge : JournalEntry → M (Unit {0})
  acknowledge entry = do now ← date_after ports 0; modify (ack_fanout now entry.seq)

  -- What follows the handler: the new entries are fanned out and acknowledged.
  unfoldable pub after_handler : Block → ℕ → CommandResult → M Reply
  unfolding dispatch_fanout tail_journal ack_fanout for_each date_after settlement
  after_handler block max_seq_before result = do
    entries ← gets (tail_journal max_seq_before default_limit)
    dispatch_fanout ports entries (block_wait_id block) (denial_of result)
    for_each acknowledge entries
    await_block block result

  -- The part of `execute` behind the policy.
  unfoldable pub run_command : CommandKind → Provenance → M Reply
  unfolding register_block handle get_max_seq after_handler
  run_command kind p = do
    block ← register_block kind p
    max_seq_before ← gets get_max_seq
    result ← handle kind p
    after_handler block max_seq_before result

  abbrev pub deny_policy : Provenance → PolicyResult → M CommandResult
  deny_policy p policy =
      commit_denial ports p EntryTypes.policy_denied
        (get_or policy.denial_code DenialCodes.policy_denied)
        (get_or policy.denial_message "Policy denied") forbidden false none none

  unfoldable pub authorize : CommandKind → Provenance → M Reply
  unfolding run_command commit_denial
  authorize kind p =
      let policy = ports.evaluate_policy p (kind_text kind) in
      if not policy.allowed
      then (do result ← deny_policy p policy; pure (returned result))
      else run_command kind p

  abbrev pub find_replay : Option String → M (Option CommandResult)
  find_replay none = pure none
  find_replay (some command_id) = run_in_transaction (gets (λ s. lookup command_id s.idempotency))

  abbrev pub replay_or_run : CommandKind → Provenance → Option CommandResult → M Reply
  replay_or_run kind p none = authorize kind p
  replay_or_run kind p (some result) = pure (returned (replayed result))

  unfoldable pub execute : KernelCommand → M Reply
  unfolding ensure_provenance authorize run_in_transaction
  execute command = do
    p ← ensure_provenance command
    existing ← find_replay (non_empty p.command_id)
    replay_or_run command.kind p existing

  -- `appendSpaceJournal`: a journal entry of a scope, with no aggregate.
  unfoldable pub append_space_journal :
      (scope_id type : String) → Fields → (actor_id credential_id : String) → M (ℕ × String)
  unfolding journal_entry run_in_transaction ulid now_iso
  append_space_journal scope_id type payload actor_id credential_id = do
    entry_id ← ulid ports
    ts ← now_iso ports
    let p = space_provenance scope_id actor_id credential_id
    run_in_transaction (do
      seq ← journal_entry (
          build_entry p entry_id ts type success payload
            (record { aggregate_id = none; kind = event; denial = none }))
      pure (seq, entry_id))
