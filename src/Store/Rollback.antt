-- ===== src/Store/Rollback.antt =====
-- A transaction that is rolled back gives its journal numbers back.
use murrmure.Prelude.{ℕ, ◌≤◌, ◌≡◌, refl, ◌∙◌, List, [], ◌∷◌, arith, fold, fold-append, min}
use murrmure.Contracts.Journal.{JournalEntry, JournalEntryDraft}
use murrmure.Store.State.{MemoryStoreState}
use murrmure.Store.Transaction.{
  MemoryTransaction, TxM, new_transaction, append_journal, append_entry,
}
use murrmure.Store.Commit.{rollback}

-- `appendJournal` of each draft in turn.
unfoldable pub append_all : List JournalEntryDraft → TxM (Unit {0})
unfolding append_journal
append_all [] s tx = (tt, s, tx)
append_all (draft ∷ drafts) s tx =
    let step = append_journal draft s tx in append_all drafts step.1 step.2

-- Taking the smallest number among a start and the entries of a transaction.
abbrev lowest : ℕ → List JournalEntry → ℕ
lowest = fold (λ n entry. min n entry.seq)

append_all-lowest :
    (drafts : List JournalEntryDraft) (s : MemoryStoreState) (tx : MemoryTransaction) (first : ℕ)
    → ((n : ℕ) → lowest n tx.journal_drafts ≡ min n first)
    → first ≤ s.next_seq
    → let after = append_all drafts s tx in lowest after.1.next_seq after.2.journal_drafts ≡ first
unfolding append_all append_journal
append_all-lowest [] s tx first h le = omega (arith, h s.next_seq, le)
append_all-lowest (draft ∷ drafts) s tx first h le =
    let step = append_journal draft s tx in
    append_all-lowest drafts step.1 step.2 first
      (λ n.
        fold-append (λ n (entry : JournalEntry). min n entry.seq) n tx.journal_drafts
          (append_entry draft s ∷ [])
        ∙ omega (arith, h n, le))
      (omega arith)

append_all-journal :
    (drafts : List JournalEntryDraft) (s : MemoryStoreState) (tx : MemoryTransaction)
    → (append_all drafts s tx).1.journal ≡ s.journal
unfolding append_all append_journal
append_all-journal [] s tx = refl
append_all-journal (draft ∷ drafts) s tx =
    append_all-journal drafts (append_journal draft s tx).1 (append_journal draft s tx).2

-- However many entries a transaction has appended, its rollback leaves the journal and the next
-- journal number as they were before the transaction.
pub rollback-append_all :
    (drafts : List JournalEntryDraft) (s : MemoryStoreState)
    → let after = append_all drafts s new_transaction in
      let restored = rollback after.2 after.1 in
      (restored.journal ≡ s.journal) × (restored.next_seq ≡ s.next_seq)
unfolding rollback append_all append_journal
rollback-append_all [] s = (refl, refl)
rollback-append_all (draft ∷ drafts) s =
    let step = append_journal draft s new_transaction in
    (
      append_all-journal drafts step.1 step.2,
      append_all-lowest drafts step.1 step.2 s.next_seq (λ n. refl) (omega arith),
    )
