-- ===== src/Kernel/Replay/Commits.antt =====
-- The commits of the kernel, in terms of what they journal.
use murrmure.Prelude.{
  ℕ, suc, String, ◌≡◌, refl, Bool, true, Option, none, some, [], ◌∷◌, ◌++◌, arith, non_empty,
  get_or,
}
use murrmure.Prelude.Int.{ℤ, int_eq}
use murrmure.Dict.{string_key, lookup, insert}
use murrmure.Json.{Fields, field, str, end, obj_or_undefined}
use murrmure.Contracts.Results.{
  Provenance, CommandResult, HttpSemantic, http_ok, accepted, success, denial,
}
use murrmure.Contracts.Results.DenialCodes
use murrmure.Contracts.Journal.{JournalEntryDraft}
use murrmure.Contracts.Aggregates.{Aggregate, Checkpoint}
use murrmure.Store.State.{MemoryStoreState}
use murrmure.Store.Transaction.{
  Insertion, inserted, exists_already, insert_idempotency, upsert_checkpoint,
  upsert_snapshot_if_revision, effective_revision, cas_ok, append_journal, insert_outbox,
  MemoryTransaction,
}
use murrmure.Kernel.Entries.{build_denial_entry, result_from_entry}
use murrmure.Kernel.Commit.{
  remember, remember_under, settle_idempotency, journal_entry, commit_success,
  commit_checkpoint_pending, commit_journal_only, commit_denial, settle_cas,
}
use murrmure.Kernel.World.{World, Ports, M, ◌>>=◌, ◌>>◌, in_tx, run_in_transaction, ulid, now_iso}
use murrmure.Kernel.Frame.Calculus.{Frame, Quiet, Quiet-pure, Quiet->>=}
use murrmure.Kernel.Frame.Store.{
  Quiet-in_tx, Quiet-gets, insert_idempotency-Leaves, upsert_checkpoint-Leaves,
}
use murrmure.Kernel.Replay.Logged.{Logged, Stages, after_journal, run-Logged, Quiet-Stages}
use murrmure.Kernel.Replay.Invariant.{Inv, Inert-Inv, Frame-Inv}

Quiet-settle :
    (id : String) (result : CommandResult) (ins : Insertion)
    → Quiet (settle_idempotency id result ins)
Quiet-settle id result inserted = Quiet-pure result
Quiet-settle id result exists_already = Quiet-gets (λ s. get_or (lookup id s.idempotency) result)

pub Quiet-remember : (p : Provenance) (result : CommandResult) → Quiet (remember p result)
unfolding remember
Quiet-remember p result = go (non_empty p.command_id)
  where
    go : (o : Option String) → Quiet (remember_under o result)
    go none = Quiet-pure result
    go (some id) =
        Quiet->>= (in_tx (insert_idempotency id result)) (settle_idempotency id result)
          (Quiet-in_tx (insert_idempotency id result) (insert_idempotency-Leaves id result))
          (Quiet-settle id result)

-- A commit that stages no snapshot: its draft is journaled, and the snapshots stay.
pub Quiet-Logged :
    {A : Type 0} (draft : JournalEntryDraft) (k : ℕ → M A) (w : World)
    → ((seq : ℕ) → Quiet (k seq))
    → Logged draft w.store.snapshots w (run_in_transaction (journal_entry draft >>= k) w).1
Quiet-Logged draft k w quiet =
    run-Logged draft [] k w (Quiet-Stages draft w (k w.store.next_seq) (quiet w.store.next_seq))

module _ (p : Provenance) where
  pub commit_journal_only-Logged :
      (draft : JournalEntryDraft) (extra : M (Unit {0})) (code : String) (body : Fields) (w : World)
      → Quiet extra
      → Logged draft w.store.snapshots w (commit_journal_only p draft extra code body w).1
  unfolding commit_journal_only
  commit_journal_only-Logged draft extra code body w quiet =
      let result = λ (seq : ℕ). result_from_entry draft.entry_id seq code body http_ok success in
      Quiet-Logged draft (λ seq. extra >> remember p (result seq)) w
        (λ seq.
          Quiet->>= extra (λ _. remember p (result seq)) quiet (λ _. Quiet-remember p (result seq)))

  pub commit_checkpoint_pending-Logged :
      (draft : JournalEntryDraft) (checkpoint : Checkpoint) (w : World)
      → Logged draft w.store.snapshots w (commit_checkpoint_pending p draft checkpoint w).1
  unfolding commit_checkpoint_pending
  commit_checkpoint_pending-Logged draft checkpoint w =
      let stage = in_tx (upsert_checkpoint checkpoint) in
      let result = λ (seq : ℕ).
        result_from_entry draft.entry_id seq DenialCodes.checkpoint_pending
          (field "checkpoint_id" (str checkpoint.checkpoint_id) (
            field "aggregate_id" (str checkpoint.aggregate_id)
              (field "transition_id" (str checkpoint.transition_id) end)))
          accepted success in
      Quiet-Logged draft (λ seq. stage >> remember p (result seq)) w
        (λ seq.
          Quiet->>= stage (λ _. remember p (result seq))
            (Quiet-in_tx (upsert_checkpoint checkpoint) (upsert_checkpoint-Leaves checkpoint))
            (λ _. Quiet-remember p (result seq)))

-- The compare-and-set passes: the snapshot is staged.
upsert-ok :
    (a : Aggregate) (expected : ℤ) (s : MemoryStoreState) (tx : MemoryTransaction)
    → int_eq (effective_revision (lookup a.aggregate_id s.snapshots)) expected ≡ true
    → upsert_snapshot_if_revision a expected s tx
      ≡ (cas_ok, s, record tx { snapshot_ops = tx.snapshot_ops ++ a ∷ [] })
unfolding upsert_snapshot_if_revision
upsert-ok a expected s tx h = rw h refl

module _ (ports : Ports) (p : Provenance) where
  success_rest :
      (draft : JournalEntryDraft) (a : Aggregate) (expected : ℤ) (code : String) (body : Fields)
      (w : World) (seq : ℕ)
      → int_eq (effective_revision (lookup a.aggregate_id w.store.snapshots)) expected ≡ true
      → Stages (a ∷ []) CommandResult (after_journal draft w) (
          (in_tx (upsert_snapshot_if_revision a expected)
              >>= settle_cas ports p draft a code body seq)
            (after_journal draft w))
  unfolding journal_entry append_journal insert_outbox
  success_rest draft a expected code body w seq h =
      let w1 = after_journal draft w in
      let result = result_from_entry draft.entry_id seq code body http_ok success in
      let (value, returned, f) = Quiet-remember p result (record w1 {
        transaction = record (w1.transaction) {
          snapshot_ops = w1.transaction.snapshot_ops ++ a ∷ [];
        };
      }) in
      rw (upsert-ok a expected w1.store w1.transaction h) (record {
        value = value;
        returned = returned;
        frame = record {
          journal = f.frame.journal;
          snapshots = f.frame.snapshots;
          next_seq = f.frame.next_seq;
          ids = f.frame.ids;
        };
        drafts = f.drafts;
        staged = f.ops;
      })

  pub commit_success-Logged :
      (draft : JournalEntryDraft) (a : Aggregate) (expected : ℤ) (code : String) (body : Fields)
      (w : World)
      → int_eq (effective_revision (lookup a.aggregate_id w.store.snapshots)) expected ≡ true
      → Logged draft
          (insert a.aggregate_id a w.store.snapshots)
          w
          (commit_success ports p draft a expected code body w).1
  unfolding commit_success
  commit_success-Logged draft a expected code body w h =
      run-Logged draft (a ∷ [])
        (λ seq.
          in_tx (upsert_snapshot_if_revision a expected)
          >>= settle_cas ports p draft a code body seq)
        w (success_rest draft a expected code body w w.store.next_seq h)

  -- A denial draws an id, reads the clock and journals its entry.
  pub commit_denial-Logged :
      (type code message : String) (http_semantic : HttpSemantic) (retryable : Bool)
      (context : Option Fields) (aggregate_id : Option String) (w : World)
      → Logged
          (build_denial_entry p
            (ports.ulid w.ids_taken)
            (ports.now_iso w.clock_read)
            type
            code
            message
            retryable
            context
            aggregate_id)
          w.store.snapshots
          (record w { ids_taken = suc w.ids_taken; clock_read = suc w.clock_read })
          (commit_denial ports p type code message http_semantic retryable context aggregate_id w).1
  unfolding commit_denial ulid now_iso
  commit_denial-Logged type code message http_semantic retryable context aggregate_id w =
      let w1 = record w { ids_taken = suc w.ids_taken; clock_read = suc w.clock_read } in
      let draft =
        build_denial_entry p (ports.ulid w.ids_taken) (ports.now_iso w.clock_read) type code message
          retryable context aggregate_id in
      let result = λ (seq : ℕ).
        result_from_entry draft.entry_id seq code
          (field "message" (str message) (field "context" (obj_or_undefined context) end))
          http_semantic denial in
      Quiet-Logged draft (λ seq. remember p (result seq)) w1 (λ seq. Quiet-remember p (result seq))

  -- The fold passes over the entry of a denial.
  pub commit_denial-Inv :
      (type code message : String) (http_semantic : HttpSemantic) (retryable : Bool)
      (context : Option Fields) (aggregate_id : Option String) (w : World)
      → Inv ports w
      → Inv ports
          (commit_denial ports p type code message http_semantic retryable context aggregate_id w).1
  commit_denial-Inv type code message http_semantic retryable context aggregate_id w i =
      let w1 = record w { ids_taken = suc w.ids_taken; clock_read = suc w.clock_read } in
      let first : Frame w w1 = record {
        journal = refl;
        snapshots = refl;
        next_seq = refl;
        ids = omega arith;
      } in
      Inert-Inv
        (commit_denial-Logged type code message http_semantic retryable context aggregate_id w) refl
        (Frame-Inv first i)
