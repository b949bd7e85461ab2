-- ===== src/Kernel/Compound.antt =====
-- What a compound wait condition waits for, when its parts are not compound themselves.
use murrmure.Prelude.{
  ℕ, suc, ◌≤◌, ◌≡◌, refl, ◌∙◌, Bool, true, false, ◌&&◌, ◌||◌, Option, none, some, [], arith, nat_eq,
  if◌then◌else◌, get_or, Bool-cases, inl, inr,
}
use murrmure.Contracts.Journal.{JournalEntry}
use murrmure.Contracts.Waits.{WaitCondition, Conditions}
use murrmure.Kernel.WaitMatch.{
  Progress, is_satisfied, every_satisfied, mark, matches_wait_condition, all_of_loop,
}

-- No condition of the list is compound.
abbrev pub Flat : Conditions → Type 0
Flat Conditions.missing = Unit
Flat Conditions.nil = Unit
Flat (Conditions.cons (WaitCondition.compound _ _) cs) = ⊥
Flat (Conditions.cons _ cs) = Flat cs

-- Each condition is among those that were met before, or is met by the entry.
abbrev pub all_met : Progress → JournalEntry → ℕ → Conditions → Bool
all_met prog entry i Conditions.missing = true
all_met prog entry i Conditions.nil = true
all_met prog entry i (Conditions.cons c cs) =
    (is_satisfied i prog || (matches_wait_condition c entry none).matched)
    && all_met prog entry (suc i) cs

-- A condition that is not compound leaves the progress alone, and does not read it.
leaf-matches :
    (c : WaitCondition) (cs : Conditions) (entry : JournalEntry) (o : Option Progress)
    → Flat (Conditions.cons c cs)
    → matches_wait_condition c entry o ≡ matches_wait_condition c entry none
unfolding matches_wait_condition
leaf-matches (WaitCondition.state _) cs entry o h = refl
leaf-matches (WaitCondition.entry _ _) cs entry o h = refl
leaf-matches (WaitCondition.checkpoint _ _) cs entry o h = refl
leaf-matches (WaitCondition.artifact _ _) cs entry o h = refl
leaf-matches (WaitCondition.compound _ _) cs entry o h = elim h [ ]

leaf-progress :
    (c : WaitCondition) (cs : Conditions) (entry : JournalEntry)
    → Flat (Conditions.cons c cs)
    → (matches_wait_condition c entry none).progress ≡ none
unfolding matches_wait_condition
leaf-progress (WaitCondition.state _) cs entry h = refl
leaf-progress (WaitCondition.entry _ _) cs entry h = refl
leaf-progress (WaitCondition.checkpoint _ _) cs entry h = refl
leaf-progress (WaitCondition.artifact _ _) cs entry h = refl
leaf-progress (WaitCondition.compound _ _) cs entry h = elim h [ ]

Flat-rest : (c : WaitCondition) (cs : Conditions) → Flat (Conditions.cons c cs) → Flat cs
Flat-rest (WaitCondition.state _) cs h = h
Flat-rest (WaitCondition.entry _ _) cs h = h
Flat-rest (WaitCondition.checkpoint _ _) cs h = h
Flat-rest (WaitCondition.artifact _ _) cs h = h
Flat-rest (WaitCondition.compound _ _) cs h = elim h [ ]

-- The progress behind one condition of the loop.
abbrev marked : WaitCondition → JournalEntry → ℕ → Progress → Progress
marked c entry i prog =
    if is_satisfied i prog then prog else mark (matches_wait_condition c entry none).matched i prog

loop-cons :
    (c : WaitCondition) (cs : Conditions) (entry : JournalEntry) (i : ℕ) (prog : Progress)
    → Flat (Conditions.cons c cs)
    → all_of_loop (Conditions.cons c cs) entry i prog
      ≡ all_of_loop cs entry (suc i) (marked c entry i prog)
unfolding all_of_loop
loop-cons c cs entry i prog h =
    rw (leaf-matches c cs entry (some prog) h) (rw (leaf-progress c cs entry h) refl)

marked-own :
    (c : WaitCondition) (entry : JournalEntry) (i : ℕ) (prog : Progress)
    → is_satisfied i (marked c entry i prog)
      ≡ (is_satisfied i prog || (matches_wait_condition c entry none).matched)
marked-own c entry i prog = elim (Bool-cases (is_satisfied i prog)) [
  | inl y ↦ rw y y
  | inr n ↦ elim (Bool-cases (matches_wait_condition c entry none).matched) [
    | inl m ↦ rw (n, m) (ground arith)
    | inr m ↦ rw (n, m) n
  ]
]

marked-other :
    (c : WaitCondition) (entry : JournalEntry) (i j : ℕ) (prog : Progress)
    → nat_eq j i ≡ false
    → is_satisfied j (marked c entry i prog) ≡ is_satisfied j prog
marked-other c entry i j prog differ = elim (Bool-cases (is_satisfied i prog)) [
  | inl y ↦ rw y refl
  | inr n ↦ elim (Bool-cases (matches_wait_condition c entry none).matched) [
    | inl m ↦ rw (n, m) (rw differ refl)
    | inr m ↦ rw (n, m) refl
  ]
]

-- The loop from an index on leaves the indices below it.
loop-below :
    (cs : Conditions) (entry : JournalEntry) (i j : ℕ) (prog : Progress)
    → Flat cs
    → suc j ≤ i
    → is_satisfied j (all_of_loop cs entry i prog) ≡ is_satisfied j prog
unfolding all_of_loop
loop-below Conditions.missing entry i j prog h lt = refl
loop-below Conditions.nil entry i j prog h lt = refl
loop-below (Conditions.cons c cs) entry i j prog h lt = rw (loop-cons c cs entry i prog h) (
    loop-below cs entry (suc i) j (marked c entry i prog) (Flat-rest c cs h) (omega arith)
    ∙ marked-other c entry i j prog (ground (arith, lt)))

-- What is met from a later index on does not depend on an earlier index.
all_met-marked :
    (c : WaitCondition) (entry : JournalEntry) (i k : ℕ) (prog : Progress) (cs : Conditions)
    → suc i ≤ k
    → all_met (marked c entry i prog) entry k cs ≡ all_met prog entry k cs
all_met-marked c entry i k prog Conditions.missing lt = refl
all_met-marked c entry i k prog Conditions.nil lt = refl
all_met-marked c entry i k prog (Conditions.cons d cs) lt =
    rw (marked-other c entry i k prog (ground (arith, lt)))
      (rw (all_met-marked c entry i (suc k) prog cs (omega arith)) refl)

every-loop :
    (cs : Conditions) (entry : JournalEntry) (i : ℕ) (prog : Progress)
    → Flat cs
    → every_satisfied i cs (all_of_loop cs entry i prog) ≡ all_met prog entry i cs
unfolding every_satisfied all_of_loop
every-loop Conditions.missing entry i prog h = refl
every-loop Conditions.nil entry i prog h = refl
every-loop (Conditions.cons c cs) entry i prog h = rw (loop-cons c cs entry i prog h) (
    rw
      (loop-below cs entry (suc i) i (marked c entry i prog) (Flat-rest c cs h) (omega arith)
        ∙ marked-own c entry i prog)
      (rw
        (every-loop cs entry (suc i) (marked c entry i prog) (Flat-rest c cs h)
          ∙ all_met-marked c entry i (suc i) prog cs (omega arith))
        refl))

-- A wait for `all_of` conditions that are not compound matches at an entry if each condition was
-- met by an earlier entry, as recorded in the progress, or is met by this one.
pub matches_wait_condition-all_of :
    (c : WaitCondition) (cs any_of : Conditions) (entry : JournalEntry) (progress : Option Progress)
    → Flat (Conditions.cons c cs)
    → (matches_wait_condition
        (WaitCondition.compound (Conditions.cons c cs) any_of)
        entry
        progress).matched
      ≡ all_met (get_or progress []) entry 0 (Conditions.cons c cs)
unfolding matches_wait_condition
matches_wait_condition-all_of c cs any_of entry progress flat =
    every-loop (Conditions.cons c cs) entry 0 (get_or progress []) flat
