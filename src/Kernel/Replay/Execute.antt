-- ===== src/Kernel/Replay/Execute.antt =====
-- `execute` keeps the invariant, and so does any list of commands.
use murrmure.Prelude.{ℕ, String, false, not, Option, none, some, List, get_or, non_empty}
use murrmure.Dict.{string_key, lookup}
use murrmure.Contracts.Results.{Provenance, CommandResult, forbidden}
use murrmure.Contracts.Results.DenialCodes
use murrmure.Contracts.Journal.{JournalEntry}
use murrmure.Contracts.Journal.EntryTypes
use murrmure.Contracts.Waits.{WaitCondition}
use murrmure.Contracts.Commands.{
  KernelCommand, CommandKind, aggregate_create, state_transition, event_append, wait_register,
  wait_cancel, reaction_register, reaction_disable, reaction_replay,
}
use murrmure.Store.Port.{get_max_seq, tail_journal, default_limit, ack_fanout}
use murrmure.Kernel.Fanout.{dispatch_fanout}
use murrmure.Kernel.Registry.{register_deferred}
use murrmure.Kernel.Handlers.Waits.{register_block_wait}
use murrmure.Kernel.Handlers.Reactions.{handle_reaction_replay}
use murrmure.Kernel.Execute.{
  returned, Block, block_on, block_wait_id, denial_of, kind_text, await_block, with_command_id,
  ensure_provenance, handle, block_with, register_block, acknowledge, after_handler, run_command,
  deny_policy, authorize, find_replay, replay_or_run, execute,
}
use murrmure.Kernel.World.{
  Ports, M, pure, ◌>>=◌, ◌>>◌, gets, modify, for_each, on_registry, ulid, date_after,
}
use murrmure.Kernel.Frame.Calculus.{
  Frame-refl, Frames, Frames-pure, Frames->>=, Frames-for_each, Frames-run_in_transaction,
}
use murrmure.Kernel.Frame.Store.{
  Quiet-gets, Frames-gets, Frames-modify, Frames-on_registry, Frames-ulid, Frames-date_after,
}
use murrmure.Kernel.Frame.Fanout.{Frames-dispatch_fanout, ack_fanout-SameCore}
use murrmure.Kernel.Replay.Invariant.{Injective}
use murrmure.Kernel.Replay.Commits.{commit_denial-Inv}
use murrmure.Kernel.Replay.Keeps.{Keeps, Frames-Keeps, Keeps->>=, Keeps-if}
use murrmure.Kernel.Replay.Handlers.{
  handle_create-Keeps, handle_transition-Keeps, handle_event_append-Keeps,
}
use murrmure.Kernel.Replay.Waits.{
  Frames-register_block_wait, handle_wait_register-Keeps, handle_wait_cancel-Keeps,
}
use murrmure.Kernel.Replay.Reactions.{
  handle_reaction_register-Keeps, handle_reaction_disable-Keeps, Frames-handle_reaction_replay,
}

Frames-await_block : (block : Block) (result : CommandResult) → Frames (await_block block result)
Frames-await_block none result w = Frame-refl w
Frames-await_block (some b) result w = Frame-refl w

module _ (ports : Ports) where
  Frames-with_command_id : (p : Provenance) (o : Option String) → Frames (with_command_id ports p o)
  Frames-with_command_id p none =
      Frames->>= (ulid ports) (λ command_id. pure (record p { command_id = some command_id }))
        (Frames-ulid ports) (λ command_id. Frames-pure (record p { command_id = some command_id }))
  Frames-with_command_id p (some command_id) = Frames-pure p

  Frames-block_with :
      (p : Provenance) (c : Option WaitCondition) (o : Option String)
      → Frames (block_with ports p c o)
  Frames-block_with p (some condition) (some command_id) =
      let answer : String → ℕ → M Block = λ wait_id promise. pure (some (wait_id, promise)) in
      let defer =
        λ (wait_id : String). on_registry (register_deferred wait_id) >>= answer wait_id in
      Frames->>= (register_block_wait ports p condition command_id) defer
        (Frames-register_block_wait ports p condition command_id)
        (λ wait_id.
          Frames->>= (on_registry (register_deferred wait_id)) (answer wait_id)
            (Frames-on_registry (register_deferred wait_id))
            (λ promise. Frames-pure {A = Block} (some (wait_id, promise))))
  Frames-block_with p (some condition) none = Frames-pure {A = Block} none
  Frames-block_with p none (some command_id) = Frames-pure {A = Block} none
  Frames-block_with p none none = Frames-pure {A = Block} none

  Frames-acknowledge : (entry : JournalEntry) → Frames (acknowledge ports entry)
  Frames-acknowledge entry =
      Frames->>= (date_after ports 0) (λ now. modify (ack_fanout now entry.seq))
        (Frames-date_after ports 0)
        (λ now. Frames-modify (ack_fanout now entry.seq) (ack_fanout-SameCore now entry.seq))

  module _ (injective : Injective ports) where
    handle-Keeps : (kind : CommandKind) (p : Provenance) → Keeps ports (handle ports kind p)
    unfolding handle
    handle-Keeps (aggregate_create command) p = handle_create-Keeps ports injective p command
    handle-Keeps (state_transition command) p = handle_transition-Keeps ports injective p command
    handle-Keeps (event_append command) p = handle_event_append-Keeps ports injective p command
    handle-Keeps (wait_register command) p = handle_wait_register-Keeps ports p command
    handle-Keeps (wait_cancel wait_id) p = handle_wait_cancel-Keeps ports p wait_id
    handle-Keeps (reaction_register spec) p = handle_reaction_register-Keeps ports p spec
    handle-Keeps (reaction_disable id) p = handle_reaction_disable-Keeps ports p id
    handle-Keeps (reaction_replay command) p =
        Frames-Keeps ports (handle_reaction_replay ports p command)
          (Frames-handle_reaction_replay ports p command)

    -- What follows the handler reads the journal, and writes other parts of the store.
    Frames-after :
        (block : Block) (max_seq_before : ℕ) (result : CommandResult)
        → Frames (after_handler ports block max_seq_before result)
    unfolding after_handler
    Frames-after block max_seq_before result =
        let finish = λ (entries : List JournalEntry).
          for_each (acknowledge ports) entries >> await_block block result in
        let fan_out = λ (entries : List JournalEntry).
          dispatch_fanout ports entries (block_wait_id block) (denial_of result) in
        Frames->>= (gets (tail_journal max_seq_before default_limit))
          (λ entries. fan_out entries >> finish entries)
          (Frames-gets (tail_journal max_seq_before default_limit))
          (λ entries.
            Frames->>= (fan_out entries) (λ _. finish entries)
              (Frames-dispatch_fanout ports entries (block_wait_id block) (denial_of result))
              (λ _.
                Frames->>= (for_each (acknowledge ports) entries) (λ _. await_block block result)
                  (Frames-for_each (acknowledge ports) entries Frames-acknowledge)
                  (λ _. Frames-await_block block result)))

    run_command-Keeps :
        (kind : CommandKind) (p : Provenance) → Keeps ports (run_command ports kind p)
    unfolding run_command register_block
    run_command-Keeps kind p =
        let after = λ (block : Block) (max_seq_before : ℕ).
          handle ports kind p >>= after_handler ports block max_seq_before in
        Keeps->>= ports (block_with ports p (block_on kind) (non_empty p.command_id))
          (λ block. gets get_max_seq >>= after block)
          (Frames-Keeps ports (block_with ports p (block_on kind) (non_empty p.command_id))
            (Frames-block_with p (block_on kind) (non_empty p.command_id)))
          (λ block.
            Keeps->>= ports (gets get_max_seq) (after block)
              (Frames-Keeps ports (gets get_max_seq) (Frames-gets get_max_seq))
              (λ max_seq_before.
                Keeps->>= ports (handle ports kind p) (after_handler ports block max_seq_before)
                  (handle-Keeps kind p)
                  (λ result.
                    Frames-Keeps ports (after_handler ports block max_seq_before result)
                      (Frames-after block max_seq_before result))))

    authorize-Keeps : (kind : CommandKind) (p : Provenance) → Keeps ports (authorize ports kind p)
    unfolding authorize
    authorize-Keeps kind p =
        let policy = ports.evaluate_policy p (kind_text kind) in
        let deny = deny_policy ports p policy in
        Keeps-if ports (not policy.allowed) (deny >>= (λ result. pure (returned result)))
          (run_command ports kind p)
          (Keeps->>= ports deny (λ result. pure (returned result))
            (commit_denial-Inv ports p EntryTypes.policy_denied
              (get_or policy.denial_code DenialCodes.policy_denied)
              (get_or policy.denial_message "Policy denied") forbidden false none none)
            (λ result w i. i))
          (run_command-Keeps kind p)

    Frames-find_replay : (o : Option String) → Frames (find_replay ports o)
    Frames-find_replay none = Frames-pure {A = Option CommandResult} none
    Frames-find_replay (some id) =
        Frames-run_in_transaction (gets (λ s. lookup id s.idempotency))
          (Quiet-gets (λ s. lookup id s.idempotency))

    replay_or_run-Keeps :
        (kind : CommandKind) (p : Provenance) (o : Option CommandResult)
        → Keeps ports (replay_or_run ports kind p o)
    replay_or_run-Keeps kind p none w i = authorize-Keeps kind p w i
    replay_or_run-Keeps kind p (some result) w i = i

    -- Each command, whatever its kind and its outcome, keeps the invariant: the journal is numbered
    -- from 1 with no gap, each snapshot is the fold of the journal, and no id still to be minted
    -- has a snapshot, provided that no id is minted twice.
    pub execute-Keeps : (command : KernelCommand) → Keeps ports (execute ports command)
    unfolding execute ensure_provenance
    execute-Keeps command =
        let first = with_command_id ports command.provenance command.provenance.command_id in
        let replay = λ (p : Provenance). find_replay ports (non_empty p.command_id) in
        Keeps->>= ports first (λ p. replay p >>= replay_or_run ports command.kind p)
          (Frames-Keeps ports first
            (Frames-with_command_id command.provenance command.provenance.command_id))
          (λ p.
            Keeps->>= ports (replay p) (replay_or_run ports command.kind p)
              (Frames-Keeps ports (replay p) (Frames-find_replay (non_empty p.command_id)))
              (replay_or_run-Keeps command.kind p))
