-- ===== src/Kernel/Replay/Waits.antt =====
-- The commands on waits keep the invariant.
use murrmure.Prelude.{ℕ, String, refl, Option, none, some}
use murrmure.Dict.{string_key, lookup}
use murrmure.Json.{Fields, field, str, end}
use murrmure.Contracts.Results.{Provenance, success}
use murrmure.Contracts.Journal.{JournalEntryDraft}
use murrmure.Contracts.Journal.EntryTypes
use murrmure.Contracts.Waits.{WaitRow, WaitCondition, cancelled}
use murrmure.Contracts.Commands.{WaitRegisterCommand}
use murrmure.Store.State.{MemoryStoreState}
use murrmure.Store.Transaction.{put_wait}
use murrmure.Store.Port.{get_max_seq}
use murrmure.Kernel.Entries.{build_entry, no_options}
use murrmure.Kernel.Commit.{commit_journal_only}
use murrmure.Kernel.Registry.{register_deferred}
use murrmure.Kernel.Handlers.Waits.{
  wait_row, register_block_wait, handle_wait_register, cancel_wait, cancel_found,
  handle_wait_cancel,
}
use murrmure.Kernel.World.{
  Ports, M, pure, ◌>>=◌, ◌>>◌, gets, in_tx, run_in_transaction, on_registry, ulid, now_iso,
}
use murrmure.Kernel.Frame.Calculus.{
  Frames, Quiet, Frames-pure, Frames->>=, Frames-run_in_transaction,
}
use murrmure.Kernel.Frame.Store.{
  Quiet-in_tx, Quiet-gets, Frames-gets, Frames-on_registry, Frames-ulid, Frames-now_iso,
  put_wait-Leaves,
}
use murrmure.Kernel.Replay.Invariant.{Inert, Inert-Inv}
use murrmure.Kernel.Replay.Commits.{commit_journal_only-Logged}
use murrmure.Kernel.Replay.Keeps.{Keeps, Frames-Keeps, Keeps->>=}

module _ (ports : Ports) (p : Provenance) where
  pub journal_only-Keeps :
      (draft : JournalEntryDraft) (extra : M (Unit {0})) (code : String) (body : Fields)
      → Quiet extra
      → Inert draft
      → Keeps ports (commit_journal_only p draft extra code body)
  journal_only-Keeps draft extra code body quiet inert w i =
      Inert-Inv (commit_journal_only-Logged p draft extra code body w quiet) inert i

  -- The clock is read and an id is drawn before the commit.
  pub dated-Keeps :
      {A : Type 0} (k : String → String → M A)
      → ((ts entry_id : String) → Keeps ports (k ts entry_id))
      → Keeps ports (now_iso ports >>= (λ ts. ulid ports >>= k ts))
  dated-Keeps k h =
      Keeps->>= ports (now_iso ports) (λ ts. ulid ports >>= k ts)
        (Frames-Keeps ports (now_iso ports) (Frames-now_iso ports))
        (λ ts.
          Keeps->>= ports (ulid ports) (k ts) (Frames-Keeps ports (ulid ports) (Frames-ulid ports))
            (h ts))

  pub Frames-register_block_wait :
      (condition : WaitCondition) (command_id : String)
      → Frames (register_block_wait ports p condition command_id)
  unfolding register_block_wait
  Frames-register_block_wait condition command_id =
      let row = λ (wait_id ts : String) (max_seq : ℕ).
        wait_row wait_id p.scope_id p.aggregate_id condition (some command_id) max_seq ts in
      let defer =
        λ (wait_id : String). on_registry (register_deferred wait_id) >>= (λ _. pure wait_id) in
      let put = λ (wait_id ts : String) (max_seq : ℕ).
        run_in_transaction (in_tx (put_wait (row wait_id ts max_seq))) in
      let at = λ (wait_id ts : String) (max_seq : ℕ). put wait_id ts max_seq >> defer wait_id in
      Frames->>= (ulid ports)
        (λ wait_id. now_iso ports >>= (λ ts. gets get_max_seq >>= at wait_id ts))
        (Frames-ulid ports)
        (λ wait_id.
          Frames->>= (now_iso ports) (λ ts. gets get_max_seq >>= at wait_id ts)
            (Frames-now_iso ports)
            (λ ts.
              Frames->>= (gets get_max_seq) (at wait_id ts) (Frames-gets get_max_seq) (λ max_seq.
                Frames->>= (put wait_id ts max_seq) (λ _. defer wait_id)
                  (Frames-run_in_transaction (in_tx (put_wait (row wait_id ts max_seq))) (
                    Quiet-in_tx (put_wait (row wait_id ts max_seq))
                      (put_wait-Leaves (row wait_id ts max_seq))))
                  (λ _.
                    Frames->>= (on_registry (register_deferred wait_id)) (λ _. pure wait_id)
                      (Frames-on_registry (register_deferred wait_id))
                      (λ _. Frames-pure wait_id)))))

  pub handle_wait_register-Keeps :
      (command : WaitRegisterCommand) → Keeps ports (handle_wait_register ports p command)
  unfolding handle_wait_register
  handle_wait_register-Keeps command =
      let row = λ (wait_id ts : String) (max_seq : ℕ).
        wait_row wait_id p.scope_id command.aggregate_id command.condition command.bound_command_id
          max_seq ts in
      let draft = λ (wait_id ts entry_id : String).
        build_entry p entry_id ts EntryTypes.wait_registered success
          (field "wait_id" (str wait_id) end)
          (record no_options { aggregate_id = command.aggregate_id }) in
      let last = λ (wait_id ts : String) (max_seq : ℕ) (entry_id : String).
        commit_journal_only p (draft wait_id ts entry_id)
          (in_tx (put_wait (row wait_id ts max_seq))) "wait_registered"
          (field "wait_id" (str wait_id) end) in
      let read = λ (wait_id ts : String).
        gets get_max_seq >>= (λ max_seq. ulid ports >>= last wait_id ts max_seq) in
      Keeps->>= ports (ulid ports) (λ wait_id. now_iso ports >>= read wait_id)
        (Frames-Keeps ports (ulid ports) (Frames-ulid ports))
        (λ wait_id.
          Keeps->>= ports (now_iso ports) (read wait_id)
            (Frames-Keeps ports (now_iso ports) (Frames-now_iso ports))
            (λ ts.
              Keeps->>= ports (gets get_max_seq) (λ max_seq. ulid ports >>= last wait_id ts max_seq)
                (Frames-Keeps ports (gets get_max_seq) (Frames-gets get_max_seq))
                (λ max_seq.
                  Keeps->>= ports (ulid ports) (last wait_id ts max_seq)
                    (Frames-Keeps ports (ulid ports) (Frames-ulid ports))
                    (λ entry_id.
                      journal_only-Keeps (draft wait_id ts entry_id)
                        (in_tx (put_wait (row wait_id ts max_seq))) "wait_registered"
                        (field "wait_id" (str wait_id) end)
                        (Quiet-in_tx (put_wait (row wait_id ts max_seq))
                          (put_wait-Leaves (row wait_id ts max_seq)))
                        refl))))

  cancel_wait-Keeps :
      (wait : WaitRow) (wait_id : String) → Keeps ports (cancel_wait ports p wait wait_id)
  unfolding cancel_wait
  cancel_wait-Keeps wait wait_id =
      let row = record wait { status = cancelled } in
      let draft = λ (ts entry_id : String).
        build_entry p entry_id ts EntryTypes.wait_cancelled success
          (field "wait_id" (str wait_id) end) no_options in
      dated-Keeps
        (λ ts entry_id.
          commit_journal_only p (draft ts entry_id) (in_tx (put_wait row)) "wait_cancelled"
            (field "wait_id" (str wait_id) end))
        (λ ts entry_id.
          journal_only-Keeps (draft ts entry_id) (in_tx (put_wait row)) "wait_cancelled"
            (field "wait_id" (str wait_id) end) (Quiet-in_tx (put_wait row) (put_wait-Leaves row))
            refl)

  cancel_found-Keeps :
      (wait_id : String) (o : Option WaitRow) → Keeps ports (cancel_found ports p wait_id o)
  cancel_found-Keeps wait_id none w i = i
  cancel_found-Keeps wait_id (some wait) w i = cancel_wait-Keeps wait wait_id w i

  pub handle_wait_cancel-Keeps :
      (wait_id : String) → Keeps ports (handle_wait_cancel ports p wait_id)
  unfolding handle_wait_cancel
  handle_wait_cancel-Keeps wait_id =
      let read = gets (λ (s : MemoryStoreState). lookup wait_id s.waits) in
      Keeps->>= ports (run_in_transaction read) (cancel_found ports p wait_id)
        (Frames-Keeps ports (run_in_transaction read)
          (Frames-run_in_transaction read (Quiet-gets (λ s. lookup wait_id s.waits))))
        (cancel_found-Keeps wait_id)
