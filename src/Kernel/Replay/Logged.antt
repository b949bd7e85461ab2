-- ===== src/Kernel/Replay/Logged.antt =====
-- What a transaction that journals one draft leaves behind.
use murrmure.Prelude.{ℕ, suc, ◌≤◌, ◌≡◌, refl, String, List, [], ◌∷◌, ◌++◌, fold}
use murrmure.Dict.{Dict, string_key, insert}
use murrmure.Contracts.Journal.{JournalEntry, JournalEntryDraft, AllocatedSeq}
use murrmure.Contracts.Aggregates.{Aggregate}
use murrmure.Store.Transaction.{new_transaction, allocate, append_journal, insert_outbox}
use murrmure.Store.Commit.{commit}
use murrmure.Kernel.Commit.{journal_entry}
use murrmure.Kernel.World.{World, Result, ok, rejected, M, ◌>>=◌, close, run_in_transaction}
use murrmure.Kernel.Frame.Calculus.{Frame, Quiet}

abbrev pub numbered_entry : JournalEntryDraft → AllocatedSeq → JournalEntry
numbered_entry draft allocated = record { draft = draft; allocated = allocated }

-- From `w` to `w'` the journal got the draft under the next number, and the snapshots became
-- `snapshots`.
pub record Logged (draft : JournalEntryDraft) (snapshots : Dict String Aggregate) (w w' : World)
    : Type 0 where
  pub allocated : AllocatedSeq
  pub numbered : allocated.seq ≡ w.store.next_seq
  pub journal : w'.store.journal ≡ w.store.journal ++ numbered_entry draft allocated ∷ []
  pub stored : w'.store.snapshots ≡ snapshots
  pub next_seq : w'.store.next_seq ≡ suc w.store.next_seq
  pub ids : w.ids_taken ≤ w'.ids_taken

abbrev pub put_snapshots : Dict String Aggregate → List Aggregate → Dict String Aggregate
put_snapshots = fold (λ m a. insert a.aggregate_id a m)

-- The world in which the rest of the transaction runs.
abbrev pub after_journal : JournalEntryDraft → World → World
after_journal draft w = (journal_entry draft (record w { transaction = new_transaction })).1

-- The rest of the transaction returns, keeps the frame and the drafts, and stages `ops`.
pub record Stages (ops : List Aggregate) (A : Type 0) (w1 : World) (r : Result A × World)
    : Type 0 where
  pub value : A
  pub returned : r.0 ≡ ok value
  pub frame : Frame w1 r.1
  pub drafts : r.1.transaction.journal_drafts ≡ w1.transaction.journal_drafts
  pub staged : r.1.transaction.snapshot_ops ≡ ops

close-Logged :
    {A : Type 0} (draft : JournalEntryDraft) (ops : List Aggregate) (w w2 : World) (r : Result A)
    (a : A)
    → r ≡ ok a
    → Frame (after_journal draft w) w2
    → w2.transaction.journal_drafts ≡ (after_journal draft w).transaction.journal_drafts
    → w2.transaction.snapshot_ops ≡ ops
    → Logged draft (put_snapshots w.store.snapshots ops) w (close r w2).1
unfolding journal_entry append_journal insert_outbox commit
close-Logged draft ops w w2 (ok a') a e f drafts staged = record {
  allocated = allocate draft w.store;
  numbered = refl;
  journal = rw drafts (rw f.journal refl);
  stored = rw staged (rw f.snapshots refl);
  next_seq = f.next_seq;
  ids = f.ids;
}
close-Logged draft ops w w2 (rejected message) a e f drafts staged = cc

pub run-Logged :
    {A : Type 0} (draft : JournalEntryDraft) (ops : List Aggregate) (k : ℕ → M A) (w : World)
    → Stages ops A (after_journal draft w) (k w.store.next_seq (after_journal draft w))
    → Logged draft
        (put_snapshots w.store.snapshots ops)
        w
        (run_in_transaction (journal_entry draft >>= k) w).1
unfolding run_in_transaction journal_entry append_journal insert_outbox
run-Logged draft ops k w st =
    let r = k w.store.next_seq (after_journal draft w) in
    close-Logged draft ops w r.1 r.0 st.value st.returned st.frame st.drafts st.staged

-- The rest is quiet: no snapshot is staged.
pub Quiet-Stages :
    {A : Type 0} (draft : JournalEntryDraft) (w : World) (m : M A)
    → Quiet m
    → Stages [] A (after_journal draft w) (m (after_journal draft w))
unfolding journal_entry append_journal insert_outbox
Quiet-Stages draft w m quiet =
    let (a, returned, f) = quiet (after_journal draft w) in
    record { value = a; returned = returned; frame = f.frame; drafts = f.drafts; staged = f.ops }
