-- ===== src/Kernel/Replay/Verify.antt =====
-- `verifyFold`, a repeated command, and a transition at a stale revision.
use murrmure.Prelude.{
  ℕ, zero, suc, append-nil, ◌≤◌, String, ◌≡◌, refl, sym, subst, ap, ◌∙◌, true, false, Option, none,
  some, List, [], ◌∷◌, arith, length, take, keep, nat_eq_iff, ltb, eq_refl, non_empty,
}
use murrmure.Prelude.Int.{int_eq, pos}
use murrmure.Dict.{string_key, lookup}
use murrmure.Contracts.Results.{
  Provenance, CommandResult, active, terminal, archived, AggregateStatus, conflict,
}
use murrmure.Contracts.Results.DenialCodes
use murrmure.Contracts.Journal.{JournalEntry}
use murrmure.Contracts.Journal.EntryTypes
use murrmure.Contracts.Aggregates.{Aggregate}
use murrmure.Contracts.Rules.{RuleArtifact, RuleTransition}
use murrmure.Contracts.Commands.{KernelCommand, CommandKind, TransitionCommand}
use murrmure.Store.State.{MemoryStoreState}
use murrmure.Store.Port.{tail_journal, default_limit}
use murrmure.Kernel.Fold.{fold_journal_to_snapshot}
use murrmure.Kernel.Fold.Order.{Numbered}
use murrmure.Kernel.Entries.{build_denial_entry}
use murrmure.Kernel.Handlers.Transitions.{perform_transition, revision_message}
use murrmure.Kernel.Execute.{
  returned, replayed, execute, ensure_provenance, with_command_id, find_replay, replay_or_run,
}
use murrmure.Kernel.Requests.{Request, history}
use murrmure.Kernel.Verify.{verify_fold, agree, same_status}
use murrmure.Kernel.World.{World, Ports, ◌>>=◌, ok, gets, run_in_transaction, initial_world}
use murrmure.Kernel.Frame.Calculus.{Frame, Frames-run_in_transaction}
use murrmure.Kernel.Frame.Store.{Quiet-gets}
use murrmure.Kernel.Replay.Invariant.{Inv, Injective, initial-Inv}
use murrmure.Kernel.Replay.Logged.{Logged}
use murrmure.Kernel.Replay.Marked.{IsReplay, replayed-IsReplay}
use murrmure.Kernel.Replay.Commits.{commit_denial-Logged}
use murrmure.Kernel.Replay.History.{history-Inv}

same_status_refl : (s : AggregateStatus) → same_status s s ≡ true
same_status_refl active = refl
same_status_refl terminal = refl
same_status_refl archived = refl

agree_refl : (o : Option Aggregate) → agree o o ≡ true
agree_refl none = refl
agree_refl (some a) =
    rw (eq_refl a.state)
      (rw ((nat_eq_iff a.revision a.revision).1 refl) (same_status_refl a.status))

-- `tailJournal(0)` gives the whole of a numbered journal that is not longer than its limit.
tail-Numbered :
    (n limit : ℕ) (es : List JournalEntry)
    → suc 0 ≤ n
    → Numbered n es
    → length es ≤ limit
    → take limit (keep (λ e. ltb 0 e.seq) es) ≡ es
tail-Numbered n zero [] lt h le = refl
tail-Numbered n zero (e ∷ es) lt h le = absurd (omega (arith, le))
tail-Numbered n (suc limit) [] lt h le = refl
tail-Numbered n (suc limit) (e ∷ es) lt h le =
    rw (positive e.seq (omega (arith, h.0)))
      (ap (e ∷◌) (tail-Numbered (suc n) limit es (omega arith) h.1 (omega arith)))
  where
    positive : (k : ℕ) → suc 0 ≤ k → ltb 0 k ≡ true
    positive k h = ground (arith, h)

module _ (ports : Ports) where
  verify_fold-Inv :
      (id : String) (w : World)
      → Inv ports w
      → length w.store.journal ≤ default_limit
      → (verify_fold id w).0 ≡ ok true
  unfolding verify_fold run_in_transaction tail_journal
  verify_fold-Inv id w i short = rw (append-nil w.store.journal) (
      rw (tail-Numbered 1 default_limit w.store.journal (omega arith) i.numbered short)
        (rw (i.folded id) (ap ok (agree_refl (fold_journal_to_snapshot w.store.journal id none)))))

  -- After any list of commands and space entries from the empty store, `verifyFold` answers true
  -- for every aggregate as long as the journal has at most 1000 entries, provided that no id is minted twice.
  pub verify_fold-history :
      Injective ports
      → (requests : List Request) (id : String)
      → length (history ports requests initial_world).store.journal ≤ default_limit
      → (verify_fold id (history ports requests initial_world)).0 ≡ ok true
  verify_fold-history injective requests id short =
      verify_fold-Inv id (history ports requests initial_world)
        (history-Inv ports injective requests initial_world (initial-Inv ports)) short

  -- The two steps behind the provenance, under the text that the id is found by.
  abbrev Replays : CommandKind → Provenance → CommandResult → World → Option String → Type 0
  Replays kind p result w o =
      let after = (find_replay ports o >>= replay_or_run ports kind p) w in
      (after.0 ≡ ok (returned (replayed result))) × Frame w after.1

  found-Replays :
      (kind : CommandKind) (p : Provenance) (id : String) (result : CommandResult) (w : World)
      → lookup id w.store.idempotency ≡ some result
      → Replays kind p result w (some id)
  unfolding run_in_transaction
  found-Replays kind p id result w found =
      let read = λ (s : MemoryStoreState). lookup id s.idempotency in
      let f = Frames-run_in_transaction (gets read) (Quiet-gets read) w in
      rw found (
        refl,
        record { journal = f.journal; snapshots = f.snapshots; next_seq = f.next_seq; ids = f.ids },
      )

  -- A command whose id is given, not empty, and has a stored result is answered with that result
  -- under the code idempotency_replay, with `replay` set to true in its body and otherwise as it was
  -- stored; journal, snapshots and numbering stay as they are.
  pub execute-replayed :
      (command : KernelCommand) (id : String) (result : CommandResult) (w : World)
      → command.provenance.command_id ≡ some id
      → non_empty (some id) ≡ some id
      → lookup id w.store.idempotency ≡ some result
      → let after = execute ports command w in
        (answer : CommandResult) × (after.0 ≡ ok (returned answer))
        × IsReplay result answer
        × Frame w after.1
  unfolding execute ensure_provenance
  execute-replayed command id result w own given found =
      rw (own, with_command_id)
        (let (answered, frame) =
            subst (Replays command.kind command.provenance result w)
              (sym (ap non_empty own ∙ given))
              (found-Replays command.kind command.provenance id result w found) in
          (replayed result, answered, replayed-IsReplay result, frame))

  -- A transition whose expected revision is not the aggregate's current one is denied: exactly one
  -- entry is journaled, the denial `revision_conflict`, and no snapshot changes.
  pub perform_transition-stale :
      (p : Provenance) (command : TransitionCommand) (aggregate : Aggregate)
      (artifact : RuleArtifact) (transition : RuleTransition) (w : World)
      → int_eq command.expected_revision (pos aggregate.revision) ≡ false
      → Logged
          (build_denial_entry p
            (ports.ulid w.ids_taken)
            (ports.now_iso w.clock_read)
            EntryTypes.revision_conflict
            DenialCodes.revision_conflict
            (revision_message command.expected_revision aggregate.revision)
            true
            none
            (some command.aggregate_id))
          w.store.snapshots
          (record w { ids_taken = suc w.ids_taken; clock_read = suc w.clock_read })
          (perform_transition ports p command aggregate artifact transition w).1
  unfolding perform_transition
  perform_transition-stale p command aggregate artifact transition w stale = rw stale (
      commit_denial-Logged ports p EntryTypes.revision_conflict DenialCodes.revision_conflict
        (revision_message command.expected_revision aggregate.revision) conflict true none
        (some command.aggregate_id) w)
