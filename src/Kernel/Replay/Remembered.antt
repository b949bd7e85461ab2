-- ===== src/Kernel/Replay/Remembered.antt =====
-- The result of a denied command is stored under the command's id.
use murrmure.Prelude.{
  suc, String, ◌≡◌, refl, Bool, Option, none, some, [], ◌∷◌, ◌++◌, non_empty, fold, fold-append,
}
use murrmure.Dict.{string_key, lookup, lookup-insert_self}
use murrmure.Json.{Fields, field, str, end, obj_or_undefined}
use murrmure.Contracts.Results.{Provenance, CommandResult, HttpSemantic, denial}
use murrmure.Store.State.{MemoryStoreState}
use murrmure.Kernel.Replay.Logged.{after_journal}
use murrmure.Store.Transaction.{
  MemoryTransaction, inserted, insert_idempotency, append_journal, insert_outbox,
}
use murrmure.Store.Commit.{commit, run_idempotency}
use murrmure.Kernel.Entries.{result_from_entry, build_denial_entry}
use murrmure.Kernel.Commit.{remember, remember_under, commit_denial, journal_entry}
use murrmure.Kernel.World.{World, Ports, ok, close, run_in_transaction, ulid, now_iso}

insert-fresh :
    (id : String) (result : CommandResult) (s : MemoryStoreState) (tx : MemoryTransaction)
    → lookup id s.idempotency ≡ none
    → insert_idempotency id result s tx ≡ (
      inserted,
      s,
      record tx {
        idempotency_ops =
            tx.idempotency_ops
            ++ record { command_id = id; result = result; outcome = inserted } ∷ [];
      },
    )
unfolding insert_idempotency
insert-fresh id result s tx fresh = rw (fresh, insert_idempotency) refl

-- The commit of a transaction that remembered the result of a new command stores it.
remember_under-stored :
    (id : String) (result : CommandResult) (w : World)
    → lookup id w.store.idempotency ≡ none
    → let r = remember_under (some id) result w in
      ((close r.0 r.1).0 ≡ ok result)
      × (lookup id (close r.0 r.1).1.store.idempotency ≡ some result)
unfolding commit
remember_under-stored id result w fresh = rw (insert-fresh id result w.store w.transaction fresh) (
  refl,
  rw
      (fold-append run_idempotency w.store.idempotency w.transaction.idempotency_ops
        (record { command_id = id; result = result; outcome = inserted } ∷ []))
      (lookup-insert_self id result
        (fold run_idempotency w.store.idempotency w.transaction.idempotency_ops)),
)

remember-stored :
    (p : Provenance) (id : String) (result : CommandResult) (w : World)
    → non_empty p.command_id ≡ some id
    → lookup id w.store.idempotency ≡ none
    → let r = remember p result w in
      ((close r.0 r.1).0 ≡ ok result)
      × (lookup id (close r.0 r.1).1.store.idempotency ≡ some result)
unfolding remember
remember-stored p id result w given fresh = rw given (remember_under-stored id result w fresh)

module _ (ports : Ports) (p : Provenance) where
  -- The answer to a command with a new id that is denied is a denial, has the code of the denial,
  -- and is stored under the id.
  pub commit_denial-stored :
      (type code message : String) (http_semantic : HttpSemantic) (retryable : Bool)
      (context : Option Fields) (aggregate_id : Option String) (id : String) (w : World)
      → non_empty p.command_id ≡ some id
      → lookup id w.store.idempotency ≡ none
      → let r =
          commit_denial ports p type code message http_semantic retryable context aggregate_id w in
        (result : CommandResult) × (r.0 ≡ ok result)
        × (result.outcome ≡ denial)
        × (result.code ≡ code)
        × (lookup id r.1.store.idempotency ≡ some result)
  unfolding commit_denial run_in_transaction remember journal_entry append_journal insert_outbox
      ulid now_iso
  commit_denial-stored type code message http_semantic retryable context aggregate_id id w given
        fresh =
      let w1 = record w { ids_taken = suc w.ids_taken; clock_read = suc w.clock_read } in
      let draft =
        build_denial_entry p (ports.ulid w.ids_taken) (ports.now_iso w.clock_read) type code message
          retryable context aggregate_id in
      let w2 = after_journal draft w1 in
      let result =
        result_from_entry draft.entry_id w.store.next_seq code
          (field "message" (str message) (field "context" (obj_or_undefined context) end))
          http_semantic denial in
      let (answered, stored) = remember-stored p id result w2 given fresh in
      (result, answered, refl, refl, stored)
