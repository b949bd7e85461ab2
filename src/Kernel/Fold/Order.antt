-- ===== src/Kernel/Fold/Order.antt =====
-- The fold of a journal whose entries are numbered in order: sorting changes nothing, and an
-- appended entry is the last to be folded.
use murrmure.Prelude.{
  ℕ, suc, ◌+◌, ◌≤◌, String, ◌≡◌, refl, ap, Bool, none, List, [], ◌∷◌, ◌++◌, arith, All, keep,
  keep-append, fold, fold-append, length, if◌then◌else◌, Bool-cases, inl, inr,
}
use murrmure.Contracts.Journal.{JournalEntry}
use murrmure.Kernel.Fold.{
  is_relevant, fold_entry, insert_by_seq, sort_by_seq, fold_journal_to_snapshot,
}

-- The entries have the numbers `n`, `n + 1`, and so on.
abbrev pub Numbered : ℕ → List JournalEntry → Type 0
Numbered n [] = Unit
Numbered n (e ∷ es) = (e.seq ≡ n) × Numbered (suc n) es

pub Numbered-append :
    (n : ℕ) (es : List JournalEntry) (e : JournalEntry)
    → Numbered n es
    → e.seq ≡ n + length es
    → Numbered n (es ++ e ∷ [])
Numbered-append n [] e h s = (omega arith, tt)
Numbered-append n (x ∷ es) e h s = (h.0, Numbered-append (suc n) es e h.1 (omega arith))

abbrev AtLeast : ℕ → List JournalEntry → Type 0
AtLeast n = All (λ e. n ≤ e.seq)

Numbered-AtLeast : (n m : ℕ) (es : List JournalEntry) → n ≤ m → Numbered m es → AtLeast n es
Numbered-AtLeast n m [] le h = tt
Numbered-AtLeast n m (e ∷ es) le h =
    (omega (arith, h.0), Numbered-AtLeast n (suc m) es (omega arith) h.1)

keep-AtLeast :
    (p : JournalEntry → Bool) (n : ℕ) (es : List JournalEntry)
    → AtLeast n es
    → AtLeast n (keep p es)
keep-AtLeast p n [] h = tt
keep-AtLeast p n (e ∷ es) h = elim (Bool-cases (p e)) [
  | inl y ↦ rw y (h.0, keep-AtLeast p n es h.1)
  | inr x ↦ rw x (keep-AtLeast p n es h.1)
]

insert_by_seq-first :
    (e : JournalEntry) (es : List JournalEntry) → AtLeast e.seq es → insert_by_seq e es ≡ e ∷ es
unfolding insert_by_seq
insert_by_seq-first e [] h = refl
insert_by_seq-first e (x ∷ es) h = ground arith

sort-keep :
    (p : JournalEntry → Bool) (n : ℕ) (es : List JournalEntry)
    → Numbered n es
    → sort_by_seq (keep p es) ≡ keep p es
unfolding sort_by_seq
sort-keep p n [] h = refl
sort-keep p n (e ∷ es) h = elim (Bool-cases (p e)) [
  | inl y ↦ rw y (
      rw (sort-keep p (suc n) es h.1) (
        insert_by_seq-first e (keep p es)
          (keep-AtLeast p e.seq es (Numbered-AtLeast e.seq (suc n) es (omega (arith, h.0)) h.1))))
  | inr x ↦ rw x (sort-keep p (suc n) es h.1)
]

-- Over a numbered journal the sort is the identity.
pub fold_journal-Numbered :
    (n : ℕ) (es : List JournalEntry) (id : String)
    → Numbered n es
    → fold_journal_to_snapshot es id none
      ≡ fold (fold_entry none id) none (keep (is_relevant id) es)
unfolding fold_journal_to_snapshot
fold_journal-Numbered n es id h =
    ap (fold (fold_entry none id) none) (sort-keep (is_relevant id) n es h)

-- The fold of a numbered journal with one more entry is the fold of the journal, followed by the
-- step of that entry if it is relevant to the aggregate.
pub fold_journal-snoc :
    (n : ℕ) (es : List JournalEntry) (e : JournalEntry) (id : String)
    → Numbered n es
    → e.seq ≡ n + length es
    → fold_journal_to_snapshot (es ++ e ∷ []) id none ≡ (
        if is_relevant id e
        then fold_entry none id (fold_journal_to_snapshot es id none) e
        else fold_journal_to_snapshot es id none)
fold_journal-snoc n es e id h s =
    rw (fold_journal-Numbered n (es ++ e ∷ []) id (Numbered-append n es e h s)) (
      rw (fold_journal-Numbered n es id h) (
        rw (keep-append (is_relevant id) es (e ∷ [])) (
          rw
            (fold-append (fold_entry none id) none (keep (is_relevant id) es)
              (keep (is_relevant id) (e ∷ [])))
            (elim (Bool-cases (is_relevant id e)) [ inl y ↦ rw y refl | inr x ↦ rw x refl ]))))
