-- ===== src/Kernel/Fold/Reordered.antt =====
-- The fold sorts its entries: packages/runtime-contracts/src/journal/fold.ts.
use murrmure.Prelude.{
  ◌≡◌, ◌≢◌, refl, sym, ap, ◌∙◌, subst, String, Bool, Option, none, List, [], ◌∷◌, arith, All, keep,
  fold, Bool-cases, inl, inr,
}
use mathlib.Core.List.{Permᴰ}
use murrmure.Contracts.Journal.{JournalEntry}
use murrmure.Contracts.Rules.{RuleArtifact}
use murrmure.Kernel.Fold.{
  is_relevant, fold_entry, insert_by_seq, sort_by_seq, fold_journal_to_snapshot,
}

-- No two entries have the same number.
abbrev pub Distinct : List JournalEntry → Type 0
Distinct [] = Unit
Distinct (e ∷ es) = All (λ x. e.seq ≢ x.seq) es × Distinct es

-- Two insertions of different numbers can change places.
insert_by_seq-swap :
    (a b : JournalEntry) (es : List JournalEntry)
    → a.seq ≢ b.seq
    → insert_by_seq a (insert_by_seq b es) ≡ insert_by_seq b (insert_by_seq a es)
unfolding insert_by_seq
insert_by_seq-swap a b [] h = ground (arith, h)
insert_by_seq-swap a b (x ∷ es) h = ground (arith, h, insert_by_seq-swap a b es h)

All-Perm :
    (P : JournalEntry → Type 0) {es fs : List JournalEntry} → Permᴰ es fs → All P es → All P fs
All-Perm P Permᴰ.nil all = tt
All-Perm P (Permᴰ.cons e d) all = (subst P e all.0, All-Perm P d all.1)
All-Perm P (Permᴰ.swap e f) all = (subst P f all.1.0, (subst P e all.0, all.1.1))
All-Perm P (Permᴰ.trans d f) all = All-Perm P f (All-Perm P d all)

Distinct-Perm : {es fs : List JournalEntry} → Permᴰ es fs → Distinct es → Distinct fs
Distinct-Perm Permᴰ.nil distinct = tt
Distinct-Perm (Permᴰ.cons {a = a} {b = b} {l₁ = l} {l₂ = m} e d) distinct = (
  subst (λ x. All (λ y. x.seq ≢ y.seq) m) e (All-Perm (λ y. a.seq ≢ y.seq) d distinct.0),
  Distinct-Perm d distinct.1,
)
Distinct-Perm (Permᴰ.swap {a = a} {b = b} {a' = c} {b' = d} {l = l} e f) distinct =
    subst (λ x. Distinct (x ∷ d ∷ l)) f
      (subst (λ x. Distinct (b ∷ x ∷ l)) e
        ((λ h. distinct.0.0 (sym h), distinct.1.0), (distinct.0.1, distinct.1.1)))
Distinct-Perm (Permᴰ.trans d f) distinct = Distinct-Perm f (Distinct-Perm d distinct)

module _ (p : JournalEntry → Bool) where
  sort-swap :
      (a b : JournalEntry) (es : List JournalEntry)
      → a.seq ≢ b.seq
      → sort_by_seq (keep p (a ∷ b ∷ es)) ≡ sort_by_seq (keep p (b ∷ a ∷ es))
  unfolding sort_by_seq
  sort-swap a b es h = elim (Bool-cases (p a)) [
    | inl x ↦ elim (Bool-cases (p b)) [
      | inl y ↦ rw (x, y) (insert_by_seq-swap a b (sort_by_seq (keep p es)) h)
      | inr n ↦ rw (x, n) refl
    ]
    | inr m ↦ elim (Bool-cases (p b)) [ inl y ↦ rw (m, y) refl | inr n ↦ rw (m, n) refl ]
  ]

  sort-more :
      (a : JournalEntry) (es fs : List JournalEntry)
      → sort_by_seq (keep p es) ≡ sort_by_seq (keep p fs)
      → sort_by_seq (keep p (a ∷ es)) ≡ sort_by_seq (keep p (a ∷ fs))
  unfolding sort_by_seq
  sort-more a es fs h = elim (Bool-cases (p a)) [
    | inl y ↦ rw y (ap (insert_by_seq a) h)
    | inr n ↦ rw n h
  ]

  sort-Perm :
      {es fs : List JournalEntry}
      → Permᴰ es fs
      → Distinct es
      → sort_by_seq (keep p es) ≡ sort_by_seq (keep p fs)
  sort-Perm Permᴰ.nil distinct = refl
  sort-Perm (Permᴰ.cons {a = a} {b = b} {l₁ = l} {l₂ = m} e d) distinct =
      sort-more a l m (sort-Perm d distinct.1) ∙ ap (λ x. sort_by_seq (keep p (x ∷ m))) e
  sort-Perm (Permᴰ.swap {a = a} {b = b} {a' = c} {b' = d} {l = l} e f) distinct =
      sort-swap a b l distinct.0.0
      ∙ ap (λ x. sort_by_seq (keep p (x ∷ a ∷ l))) f
      ∙ ap (λ x. sort_by_seq (keep p (c ∷ x ∷ l))) e
  sort-Perm (Permᴰ.trans d f) distinct =
      sort-Perm d distinct ∙ sort-Perm f (Distinct-Perm d distinct)

-- Entries whose numbers are different fold to the same snapshot in whatever order they are given.
pub fold_journal_to_snapshot_reordered :
    (es fs : List JournalEntry) (id : String) (artifact : Option RuleArtifact)
    → Permᴰ es fs
    → Distinct es
    → fold_journal_to_snapshot es id artifact ≡ fold_journal_to_snapshot fs id artifact
unfolding fold_journal_to_snapshot
fold_journal_to_snapshot_reordered es fs id artifact d distinct =
    ap (fold (fold_entry artifact id) none) (sort-Perm (is_relevant id) d distinct)
