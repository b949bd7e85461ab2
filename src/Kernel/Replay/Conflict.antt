-- ===== src/Kernel/Replay/Conflict.antt =====
-- `commitSuccess` when the aggregate has changed since it was read.
use murrmure.Prelude.{suc, ◌≡◌, refl, String, true, false, none, some, List, [], ◌∷◌, ◌++◌}
use murrmure.Prelude.Int.{ℤ, int_eq}
use murrmure.Dict.{string_key, lookup}
use murrmure.Json.{Fields, field, str, end}
use murrmure.Contracts.Results.{Provenance, conflict, denial}
use murrmure.Contracts.Results.DenialCodes
use murrmure.Contracts.Journal.{JournalEntry, JournalEntryDraft}
use murrmure.Contracts.Journal.EntryTypes
use murrmure.Contracts.Aggregates.{Aggregate}
use murrmure.Store.Transaction.{
  cas_conflict, effective_revision, upsert_snapshot_if_revision, append_journal, append_entry,
  insert_outbox,
}
use murrmure.Store.Commit.{commit}
use murrmure.Kernel.Entries.{build_denial_entry, result_from_entry}
use murrmure.Kernel.Commit.{commit_success, commit_conflict, journal_entry, remember}
use murrmure.Kernel.World.{
  World, Ports, Result, ok, rejected, close, run_in_transaction, ulid, now_iso,
}
use murrmure.Kernel.Replay.Logged.{after_journal}
use murrmure.Kernel.Replay.Commits.{Quiet-remember}

-- The journal and the snapshots behind a transaction that staged entries and no snapshot.
close-journal :
    {A : Type 0} (w w2 : World) (drafts : List JournalEntry) (r : Result A) (a : A)
    → r ≡ ok a
    → w2.store.journal ≡ w.store.journal
    → w2.store.snapshots ≡ w.store.snapshots
    → w2.transaction.journal_drafts ≡ drafts
    → w2.transaction.snapshot_ops ≡ []
    → ((close r w2).1.store.journal ≡ w.store.journal ++ drafts)
      × ((close r w2).1.store.snapshots ≡ w.store.snapshots)
unfolding commit
close-journal w w2 drafts (ok a') a e j s d o = (rw (j, d) refl, rw (s, o) refl)
close-journal w w2 drafts (rejected message) a e j s d o = cc

module _ (ports : Ports) (p : Provenance) where
  abbrev pub conflict_draft : Aggregate → World → JournalEntryDraft
  conflict_draft a w =
      build_denial_entry p (ports.ulid w.ids_taken) (ports.now_iso w.clock_read)
        EntryTypes.revision_conflict DenialCodes.revision_conflict "Revision conflict" true none
        (some a.aggregate_id)

  upsert-conflict :
      (a : Aggregate) (expected : ℤ) (w : World)
      → int_eq (effective_revision (lookup a.aggregate_id w.store.snapshots)) expected ≡ false
      → upsert_snapshot_if_revision a expected w.store w.transaction
        ≡ (cas_conflict, w.store, w.transaction)
  unfolding upsert_snapshot_if_revision
  upsert-conflict a expected w changed = rw changed refl

  -- A commit of a snapshot whose aggregate has changed leaves every snapshot as it is, but the
  -- journal gets both entries: the success that the caller drafted, and behind it the denial.
  pub commit_success-conflict :
      (draft : JournalEntryDraft) (a : Aggregate) (expected : ℤ) (code : String) (body : Fields)
      (w : World)
      → int_eq (effective_revision (lookup a.aggregate_id w.store.snapshots)) expected ≡ false
      → let w' = (commit_success ports p draft a expected code body w).1 in
        (w'.store.journal
          ≡ w.store.journal
            ++ append_entry draft w.store
              ∷ append_entry (conflict_draft a w) (after_journal draft w).store
              ∷ [])
        × (w'.store.snapshots ≡ w.store.snapshots)
  unfolding commit_success commit_conflict run_in_transaction journal_entry append_journal
      insert_outbox ulid now_iso
  commit_success-conflict draft a expected code body w changed =
      let second = conflict_draft a w in
      let w1 = after_journal draft w in
      let w2 = (journal_entry second w1).1 in
      let w3 = record w2 { ids_taken = suc w.ids_taken; clock_read = suc w.clock_read } in
      let result =
        result_from_entry second.entry_id (suc w.store.next_seq) DenialCodes.revision_conflict
          (field "message" (str "Revision conflict") end) conflict denial in
      let (value, returned, f) = Quiet-remember p result w3 in
      rw (upsert-conflict a expected w1 changed) (
        close-journal w (remember p result w3).1
          (append_entry draft w.store ∷ append_entry second w1.store ∷ []) (remember p result w3).0
          value returned f.frame.journal f.frame.snapshots f.drafts f.ops)
