-- ===== src/Hub/Guard/Invariant.antt =====
-- What holds of the sections under the guard of a space:
-- packages/hub-core/src/run/space-guard.ts.
use murrmure.Prelude.{
  ℕ, ◌≤◌, ◌<◌, ◌≡◌, ◌≢◌, ◌⊎◌, refl, sym, ap, ◌∙◌, String, none, some, if◌then◌else◌, arith, nat_eq,
  nat_eq_iff, Bool-cases, inl, inr,
}
use murrmure.Dict.{Dict, lookup, insert, lookup-insert, string_key, nat_key}
use murrmure.Hub.Guard.{waiting, settled, Section, Guard, no_sections}

abbrev pub At : Guard → ℕ → Section → Type 0
At g i a = lookup i g.sections ≡ some a

pub record Inv (g : Guard) : Type 0 where
  pub below : (i : ℕ) (a : Section) → At g i a → i < g.next
  pub tail : (i : ℕ) (a : Section) → At g i a → (t : ℕ) × (lookup a.key g.chains ≡ some t) × (i ≤ t)
  pub tail_key :
      (k : String) (t : ℕ) → lookup k g.chains ≡ some t → (b : Section) × At g t b × (b.key ≡ k)
  pub latest :
      (i j : ℕ) (a b : Section)
      → At g i a
      → At g j b
      → a.key ≡ b.key
      → i < j
      → (p : ℕ) × (b.prev ≡ some p) × (i ≤ p)
  pub prev_key :
      (j p : ℕ) (b : Section)
      → At g j b
      → b.prev ≡ some p
      → (c : Section) × At g p c × (c.key ≡ b.key)
  pub order :
      (i j : ℕ) (a b : Section)
      → At g i a
      → At g j b
      → a.key ≡ b.key
      → i < j
      → b.phase ≢ waiting
      → a.phase ≡ settled

pub no_sections-Inv : Inv no_sections
unfolding lookup
no_sections-Inv = record {
  below = λ i a h. cc;
  tail = λ i a h. cc;
  tail_key = λ k t h. cc;
  latest = λ i j a b ha hb e l. cc;
  prev_key = λ j p b hb e. cc;
  order = λ i j a b ha hb e l n. cc;
}

pub some_inj : {a b : Section} → some a ≡ some b → a ≡ b
some_inj {a} h = ap (λ o. elim o [ none ↦ a | some b ↦ b ]) h

-- A section behind an insertion is the new one, or was there before.
pub At-insert :
    (n i : ℕ) (c a : Section) (m : Dict ℕ Section)
    → lookup i (insert n c m) ≡ some a
    → ((n ≡ i) × (c ≡ a)) ⊎ ((n ≢ i) × (lookup i m ≡ some a))
At-insert n i c a m h = elim (Bool-cases (nat_eq n i)) [
  | inl y ↦ inl (
    (nat_eq_iff n i).0 y,
    some_inj (sym (ap (λ b. if b then some c else lookup i m) y) ∙ sym (lookup-insert n i c m) ∙ h),
  )
  | inr no_eq ↦ inr (
    (λ e. ground (arith, (nat_eq_iff n i).1 e, no_eq)),
    sym (ap (λ b. if b then some c else lookup i m) no_eq) ∙ sym (lookup-insert n i c m) ∙ h,
  )
]

pub At-insert_other :
    (n i : ℕ) (c : Section) (m : Dict ℕ Section) → n ≢ i → lookup i (insert n c m) ≡ lookup i m
At-insert_other n i c m d = lookup-insert n i c m ∙ elim (Bool-cases (nat_eq n i)) [
  | inl y ↦ absurd (d ((nat_eq_iff n i).0 y))
  | inr z ↦ rw z refl
]

pub At-insert_self : (n : ℕ) (c : Section) (m : Dict ℕ Section) → lookup n (insert n c m) ≡ some c
At-insert_self n c m = lookup-insert n n c m ∙ rw ((nat_eq_iff n n).1 refl) refl
