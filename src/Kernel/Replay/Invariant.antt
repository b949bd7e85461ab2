-- ===== src/Kernel/Replay/Invariant.antt =====
-- The invariant of the store between commands, and the three ways a step keeps it.
use murrmure.Prelude.{
  ℕ, suc, ◌≤◌, String, ◌≡◌, refl, sym, ◌∙◌, ◌≢◌, false, ◌&&◌, Option, none, some, [], ◌∷◌, arith,
  length, length-append, if◌then◌else◌, Bool-cases, inl, inr, ◌==◌, eq_iff, subst,
}
use murrmure.Dict.{Dict, string_key, lookup, insert, lookup-insert}
use murrmure.Contracts.Journal.{JournalEntryDraft, AllocatedSeq}
use murrmure.Contracts.Aggregates.{Aggregate}
use murrmure.Kernel.Fold.{
  is_success, is_relevant, is_state_mutating_entry, fold_entry, fold_journal_to_snapshot,
}
use murrmure.Contracts.Journal.EntryTypes.{is_state_mutating_type}
use murrmure.Kernel.Fold.Order.{Numbered, Numbered-append, fold_journal-snoc}
use murrmure.Kernel.World.{World, Ports, initial_world}
use murrmure.Kernel.Frame.Calculus.{Frame}
use murrmure.Kernel.Replay.Logged.{Logged, numbered_entry}

-- The journal is numbered from 1 with no gap, each aggregate's snapshot is the fold of the
-- journal, and no id that is still to be minted has a snapshot.
pub record Inv (ports : Ports) (w : World) : Type 0 where
  pub numbered : Numbered 1 w.store.journal
  pub next : w.store.next_seq ≡ suc (length w.store.journal)
  pub folded :
      (id : String) → lookup id w.store.snapshots ≡ fold_journal_to_snapshot w.store.journal id none
  pub fresh : (k : ℕ) → w.ids_taken ≤ k → lookup (ports.ulid k) w.store.snapshots ≡ none

-- Ids are never minted twice.
abbrev pub Injective : Ports → Type 0
Injective ports = (j k : ℕ) → ports.ulid j ≡ ports.ulid k → j ≡ k

pub initial-Inv : (ports : Ports) → Inv ports initial_world
unfolding fold_journal_to_snapshot lookup
initial-Inv ports = record { numbered = tt; next = refl; folded = λ id. refl; fresh = λ k h. refl }

-- A draft that the fold passes over.
abbrev pub Inert : JournalEntryDraft → Type 0
Inert draft = (is_success draft.outcome && is_state_mutating_type draft.type) ≡ false

fold_entry-Inert :
    (draft : JournalEntryDraft) (id : String) (acc : Option Aggregate) (allocated : AllocatedSeq)
    → (is_success draft.outcome && is_state_mutating_type draft.type) ≡ false
    → fold_entry none id acc (numbered_entry draft allocated) ≡ acc
unfolding fold_entry is_state_mutating_entry
fold_entry-Inert draft id acc allocated h = rw h refl

module _ {ports : Ports} where
  pub Frame-Inv : {w w' : World} → Frame w w' → Inv ports w → Inv ports w'
  Frame-Inv f i = record {
    numbered = rw f.journal i.numbered;
    next = rw (f.journal, f.next_seq) i.next;
    folded = λ id. rw (f.journal, f.snapshots) (i.folded id);
    fresh = λ k h. rw f.snapshots (i.fresh k (omega (arith, f.ids)));
  }

  -- The journal's part of the invariant after a step that appends one entry.
  Logged-Numbered :
      {draft : JournalEntryDraft} {m : Dict String Aggregate} {w w' : World}
      → Logged draft m w w'
      → Inv ports w
      → Numbered 1 w'.store.journal
  Logged-Numbered {w} l i =
      rw l.journal
        (Numbered-append 1 w.store.journal _ i.numbered (omega (arith, l.numbered, i.next)))

  Logged-next :
      {draft : JournalEntryDraft} {m : Dict String Aggregate} {w w' : World}
      → Logged draft m w w'
      → Inv ports w
      → w'.store.next_seq ≡ suc (length w'.store.journal)
  Logged-next {draft} {w} l i = rw l.journal (
      omega (
        arith,
        l.next_seq,
        i.next,
        length-append w.store.journal (numbered_entry draft l.allocated ∷ []),
      ))

  -- The fold after such a step.
  pub Logged-fold :
      {draft : JournalEntryDraft} {m : Dict String Aggregate} {w w' : World}
      (l : Logged draft m w w')
      → Inv ports w
      → (id : String)
      → fold_journal_to_snapshot w'.store.journal id none ≡ (
          if is_relevant id (numbered_entry draft l.allocated)
          then fold_entry none id (lookup id w.store.snapshots) (numbered_entry draft l.allocated)
          else lookup id w.store.snapshots)
  Logged-fold {draft} {w} l i id = rw l.journal (
      rw (i.folded id) (
        fold_journal-snoc 1 w.store.journal (numbered_entry draft l.allocated) id i.numbered
          (omega (arith, l.numbered, i.next))))

  -- A step whose entry changes the fold of no aggregate, and that writes no snapshot.
  pub Passed-Inv :
      {draft : JournalEntryDraft} {w w' : World}
      → (l : Logged draft w.store.snapshots w w')
      → ((id : String)
          → (if is_relevant id (numbered_entry draft l.allocated)
              then fold_entry none id
                  (lookup id w.store.snapshots)
                  (numbered_entry draft l.allocated)
              else lookup id w.store.snapshots)
            ≡ lookup id w.store.snapshots)
      → Inv ports w
      → Inv ports w'
  Passed-Inv {draft} {w} {w'} l passed i = record {
    numbered = Logged-Numbered l i;
    next = Logged-next l i;
    folded = λ id. rw l.stored (sym (Logged-fold l i id ∙ passed id));
    fresh = λ k h. rw l.stored (i.fresh k (omega (arith, l.ids)));
  }

  pub Inert-Inv :
      {draft : JournalEntryDraft} {w w' : World}
      → Logged draft w.store.snapshots w w'
      → Inert draft
      → Inv ports w
      → Inv ports w'
  Inert-Inv {draft} {w} {w'} l inert i = Passed-Inv l passed i
    where
      passed :
          (id : String)
          → (if is_relevant id (numbered_entry draft l.allocated)
              then fold_entry none id
                  (lookup id w.store.snapshots)
                  (numbered_entry draft l.allocated)
              else lookup id w.store.snapshots)
            ≡ lookup id w.store.snapshots
      passed id = elim (Bool-cases (is_relevant id (numbered_entry draft l.allocated))) [
        | inl y ↦ rw y (fold_entry-Inert draft id (lookup id w.store.snapshots) l.allocated inert)
        | inr x ↦ rw x refl
      ]

  -- A step that writes the snapshot of the aggregate `id`, which is the fold of its entry. The
  -- id is one that was minted, or has a snapshot.
  pub Snapshot-Inv :
      {draft : JournalEntryDraft} {w w' : World} (id : String) (a : Aggregate)
      → (l : Logged draft (insert id a w.store.snapshots) w w')
      → ((j : String) → is_relevant j (numbered_entry draft l.allocated) ≡ (id == j))
      → fold_entry none id (lookup id w.store.snapshots) (numbered_entry draft l.allocated) ≡ some a
      → ((k : ℕ) → w'.ids_taken ≤ k → ports.ulid k ≢ id)
      → Inv ports w
      → Inv ports w'
  Snapshot-Inv {draft} {w} {w'} id a l relevant step minted i = record {
    numbered = Logged-Numbered l i;
    next = Logged-next l i;
    folded = λ j.
        rw l.stored (lookup-insert id j a w.store.snapshots ∙ sym (Logged-fold l i j ∙ written j));
    fresh = λ k h. rw l.stored (lookup-insert id (ports.ulid k) a w.store.snapshots ∙ other k h);
  }
    where
      written :
          (j : String)
          → (if is_relevant j (numbered_entry draft l.allocated)
              then fold_entry none j (lookup j w.store.snapshots) (numbered_entry draft l.allocated)
              else lookup j w.store.snapshots)
            ≡ (if id == j then some a else lookup j w.store.snapshots)
      written j = elim (Bool-cases (id == j)) [
        | inl y ↦ rw (relevant j) (
            rw y (
              subst
                (λ x.
                  fold_entry none x (lookup x w.store.snapshots) (numbered_entry draft l.allocated)
                  ≡ some a)
                ((eq_iff id j).0 y) step))
        | inr x ↦ rw (relevant j) (rw x refl)
      ]

      other :
          (k : ℕ)
          → w'.ids_taken ≤ k
          → (if id == ports.ulid k then some a else lookup (ports.ulid k) w.store.snapshots) ≡ none
      other k h = elim (Bool-cases (id == ports.ulid k)) [
        | inl y ↦ absurd (minted k h (sym ((eq_iff id (ports.ulid k)).0 y)))
        | inr x ↦ rw x (i.fresh k (omega (arith, l.ids)))
      ]
