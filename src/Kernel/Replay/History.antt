-- ===== src/Kernel/Replay/History.antt =====
-- What holds of the store after any list of requests.
use murrmure.Prelude.{ℕ, suc, String, ◌≡◌, refl, none, List, [], ◌∷◌, length, arith}
use murrmure.Dict.{string_key, lookup}
use murrmure.Json.{Fields}
use murrmure.Contracts.Results.{success}
use murrmure.Contracts.Journal.{event}
use murrmure.Kernel.Entries.{build_entry}
use murrmure.Kernel.Fold.{fold_journal_to_snapshot}
use murrmure.Kernel.Fold.Order.{Numbered}
use murrmure.Kernel.Execute.{append_space_journal, space_provenance}
use murrmure.Kernel.Requests.{Request, run_kernel, append_space, serve, history}
use murrmure.Kernel.World.{World, Ports, pure, ulid, now_iso, initial_world}
use murrmure.Kernel.Frame.Calculus.{Frame, Quiet-pure}
use murrmure.Kernel.Replay.Invariant.{Inv, Injective, initial-Inv, Frame-Inv, Passed-Inv}
use murrmure.Kernel.Replay.Commits.{Quiet-Logged}
use murrmure.Kernel.Replay.Execute.{execute-Keeps}

module _ (ports : Ports) where
  -- The entry of a space belongs to no aggregate, whatever its type is.
  append_space_journal-Inv :
      (scope_id type : String) (payload : Fields) (actor_id credential_id : String) (w : World)
      → Inv ports w
      → Inv ports (append_space_journal ports scope_id type payload actor_id credential_id w).1
  unfolding append_space_journal ulid now_iso
  append_space_journal-Inv scope_id type payload actor_id credential_id w i =
      let entry_id = ports.ulid w.ids_taken in
      let w1 = record w { ids_taken = suc w.ids_taken; clock_read = suc w.clock_read } in
      let draft =
        build_entry (space_provenance scope_id actor_id credential_id) entry_id
          (ports.now_iso w.clock_read) type success payload
          (record { aggregate_id = none; kind = event; denial = none }) in
      let first : Frame w w1 = record {
        journal = refl;
        snapshots = refl;
        next_seq = refl;
        ids = omega arith;
      } in
      Passed-Inv
        (Quiet-Logged {A = ℕ × String} draft (λ seq. pure (seq, entry_id)) w1
          (λ seq. Quiet-pure {A = ℕ × String} (seq, entry_id)))
        (λ id. refl) (Frame-Inv first i)

  module _ (injective : Injective ports) where
    serve-Inv : (request : Request) (w : World) → Inv ports w → Inv ports (serve ports request w)
    serve-Inv (run_kernel command) w i = execute-Keeps ports injective command w i
    serve-Inv (append_space scope_id type payload actor_id credential_id) w i =
        append_space_journal-Inv scope_id type payload actor_id credential_id w i

    pub history-Inv :
        (requests : List Request) (w : World) → Inv ports w → Inv ports (history ports requests w)
    unfolding history
    history-Inv [] w i = i
    history-Inv (request ∷ requests) w i =
        history-Inv requests (serve ports request w) (serve-Inv request w i)

    -- After any list of commands and space entries from the empty store, every aggregate's
    -- snapshot is what the fold of the whole journal gives, provided that no id is minted twice.
    pub snapshot-history :
        (requests : List Request) (id : String)
        → lookup id (history ports requests initial_world).store.snapshots
          ≡ fold_journal_to_snapshot (history ports requests initial_world).store.journal id none
    snapshot-history requests id =
        (history-Inv requests initial_world (initial-Inv ports)).folded id

    -- After any list of commands and space entries from the empty store, the journal's entries are
    -- numbered 1, 2, 3 and so on with no gap, and the next number is the one after them, provided
    -- that no id is minted twice.
    pub journal-history :
        (requests : List Request)
        → Numbered 1 (history ports requests initial_world).store.journal
          × ((history ports requests initial_world).store.next_seq
              ≡ suc (length (history ports requests initial_world).store.journal))
    journal-history requests =
        let i = history-Inv requests initial_world (initial-Inv ports) in (i.numbered, i.next)
