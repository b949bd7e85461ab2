-- ===== src/Hub/Guard/Order.antt =====
-- Sections of a space run one after the other, in the order of the calls:
-- packages/hub-core/src/run/space-guard.ts.
use murrmure.Prelude.{
  ℕ, ◌<◌, ◌≡◌, ◌≢◌, ◌⊎◌, sym, ap, ◌∙◌, subst, String, false, none, some, List, [], ◌∷◌,
  if◌then◌else◌, fold, arith, ◌==◌, eq_iff, Bool-cases, inl, inr,
}
use murrmure.Dict.{lookup, lookup-insert, string_key, nat_key}
use murrmure.Hub.Ids.{bare_space_id}
use murrmure.Hub.Guard.{
  waiting, settled, Section, Guard, no_sections, with_space, Action, act, run_actions,
}
use murrmure.Hub.Guard.Invariant.{
  At, Inv, no_sections-Inv, At-insert, At-insert_other, At-insert_self,
}
use murrmure.Hub.Guard.Phases.{begin-Inv, settle-Inv}

module _ (space_id : String) (g : Guard) (inv : Inv g) where
  abbrev key : String
  key = bare_space_id space_id

  abbrev new : Section
  new = record { key = key; prev = lookup key g.chains; phase = waiting }

  abbrev called : Guard
  called = with_space space_id g

  split :
      (i : ℕ) (a : Section) → At called i a → ((g.next ≡ i) × (new ≡ a)) ⊎ (At g i a × (i < g.next))
  unfolding with_space
  split i a h = elim (At-insert g.next i new a g.sections h) [
    | inl e ↦ inl e
    | inr (_, there) ↦ inr (there, inv.below i a there)
  ]

  stays : (i : ℕ) (a : Section) → At g i a → At called i a
  unfolding with_space
  stays i a h = At-insert_other g.next i new g.sections (λ e. not_next e (inv.below i a h)) ∙ h
    where
      not_next : g.next ≡ i → ¬ (i < g.next)
      not_next e l = omega (arith, e, l)

  tail_of :
      (k : String)
      → ((key ≡ k) × (lookup k called.chains ≡ some g.next))
        ⊎ (((key == k) ≡ false) × (lookup k called.chains ≡ lookup k g.chains))
  unfolding with_space
  tail_of k = elim (Bool-cases (key == k)) [
    | inl y ↦ inl (
      (eq_iff key k).0 y,
      lookup-insert key k g.next g.chains
          ∙ ap (λ b. if b then some g.next else lookup k g.chains) y,
    )
    | inr z ↦ inr (
      z,
      lookup-insert key k g.next g.chains
          ∙ ap (λ b. if b then some g.next else lookup k g.chains) z,
    )
  ]

  nat_inj : {a b : ℕ} → some a ≡ some b → a ≡ b
  nat_inj {a} h = ap (λ o. elim o [ none ↦ a | some b ↦ b ]) h

  with_space-Inv : Inv called
  unfolding with_space
  with_space-Inv = record {
    below = λ i a h. elim (split i a h) [
      | inl (e, _) ↦ omega (arith, e)
      | inr (_, l) ↦ omega (arith, l)
    ];
    tail = λ i a h. elim (tail_of a.key) [
      | inl (_, last) ↦ (
        g.next,
        last,
        elim (split i a h) [ inl (e, _) ↦ omega (arith, e) | inr (_, l) ↦ omega (arith, l) ],
      )
      | inr (other, same) ↦ elim (split i a h) [
        | inl (_, e) ↦ absurd (mine other (ap (λ s. s.key) e))
        | inr (there, _) ↦ let (t, last, le) = inv.tail i a there in (t, same ∙ last, le)
      ]
    ];
    tail_key = λ k t h. elim (tail_of k) [
      | inl (mine, last) ↦ (
        new,
        subst (λ n. At called n new) (nat_inj (sym last ∙ h))
            (At-insert_self g.next new g.sections),
        mine,
      )
      | inr (_, same) ↦
          let (b, there, e) = inv.tail_key k t (sym same ∙ h) in (b, stays t b there, e)
    ];
    latest = λ i j a b ha hb e l. elim (split i a ha) [
      | inl (ei, _) ↦ elim (split j b hb) [
        | inl (ej, _) ↦ absurd (omega (arith, ei, ej, l))
        | inr (_, lj) ↦ absurd (omega (arith, ei, lj, l))
      ]
      | inr (ia, _) ↦ elim (split j b hb) [
        | inl (_, eb) ↦
            let (t, last, le) = inv.tail i a ia in
            (
              t,
              ap (λ s. s.prev) (sym eb)
                  ∙ ap (λ k. lookup k g.chains) (ap (λ s. s.key) eb ∙ sym e)
                  ∙ last,
              le,
            )
        | inr (jb, _) ↦ inv.latest i j a b ia jb e l
      ]
    ];
    prev_key = λ j p b hb e. elim (split j b hb) [
      | inl (_, eb) ↦
          let (d, there, same) = inv.tail_key key p (ap (λ s. s.prev) eb ∙ e) in
          (d, stays p d there, same ∙ ap (λ s. s.key) eb)
      | inr (jb, _) ↦ let (d, there, same) = inv.prev_key j p b jb e in (d, stays p d there, same)
    ];
    order = λ i j a b ha hb e l begun. elim (split j b hb) [
      | inl (_, eb) ↦ absurd (begun (ap (λ s. s.phase) (sym eb)))
      | inr (jb, lj) ↦ elim (split i a ha) [
        | inl (ei, _) ↦ absurd (omega (arith, ei, lj, l))
        | inr (ia, _) ↦ inv.order i j a b ia jb e l begun
      ]
    ];
  }
    where
      mine : {k : String} → (key == k) ≡ false → key ≢ k
      mine {k} z e = ground (arith, (eq_iff key k).1 e, z)

act-Inv : (g : Guard) (action : Action) → Inv g → Inv (act g action)
act-Inv g (Action.call space_id) inv = with_space-Inv space_id g inv
act-Inv g (Action.start n) inv = begin-Inv n g inv
act-Inv g (Action.finish n) inv = settle-Inv n g inv

fold-Inv : (actions : List Action) (g : Guard) → Inv g → Inv (fold act g actions)
fold-Inv [] g inv = inv
fold-Inv (action ∷ actions) g inv = fold-Inv actions (act g action) (act-Inv g action inv)

-- Whatever the order in which the sections of all spaces are called, start and end, a section that
-- has started finds each section of the same space that was called before it ended: two sections
-- of a space never run at the same time, and they run in the order of the calls.
pub run_actions-settled :
    (actions : List Action) (i j : ℕ) (a b : Section)
    → lookup i (run_actions actions).sections ≡ some a
    → lookup j (run_actions actions).sections ≡ some b
    → a.key ≡ b.key
    → i < j
    → b.phase ≢ waiting
    → a.phase ≡ settled
unfolding run_actions
run_actions-settled actions i j a b ha hb same earlier begun =
    let inv = fold-Inv actions no_sections no_sections-Inv in
    inv.order i j a b ha hb same earlier begun
