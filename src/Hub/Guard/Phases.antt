-- ===== src/Hub/Guard/Phases.antt =====
-- Starting and ending a section keeps the invariant of the guard:
-- packages/hub-core/src/run/space-guard.ts.
use murrmure.Prelude.{
  ℕ, ◌<◌, ◌≡◌, ◌≢◌, refl, sym, ap, ◌∙◌, subst, true, false, Option, none, some, if◌then◌else◌,
  arith, nat_eq, nat_eq_iff, Bool-cases, inl, inr,
}
use murrmure.Dict.{lookup, string_key, nat_key}
use murrmure.Hub.Guard.{
  Phase, waiting, running, settled, Section, Guard, has_settled, may_run, in_phase, set_section,
  begin_found, begin, settle_found, settle,
}
use murrmure.Hub.Guard.Invariant.{At, Inv, some_inj, At-insert, At-insert_other, At-insert_self}

-- A section that only changes its phase.
module _ (g : Guard) (n : ℕ) (c : Section) (phase : Phase) (inv : Inv g) (at : At g n c) where
  abbrev changed : Guard
  changed = set_section n (in_phase phase c) g

  old :
      (i : ℕ) (a : Section)
      → At changed i a
      → (b : Section) × At g i b × (b.key ≡ a.key) × (b.prev ≡ a.prev)
  old i a h = elim (At-insert n i (in_phase phase c) a g.sections h) [
    | inl (e, same) ↦ (c, subst (λ k. At g k c) e at, ap (λ s. s.key) same, ap (λ s. s.prev) same)
    | inr (d, there) ↦ (a, there, refl, refl)
  ]

  kept : (i : ℕ) (a : Section) → At g i a → (b : Section) × At changed i b × (b.key ≡ a.key)
  kept i a h = elim (Bool-cases (nat_eq n i)) [
    | inl y ↦
        let e = (nat_eq_iff n i).0 y in
        let same = some_inj (sym (subst (λ k. At g k c) e at) ∙ h) in
        (
          in_phase phase c,
          subst (λ k. At changed k (in_phase phase c)) e
              (At-insert_self n (in_phase phase c) g.sections),
          ap (λ s. s.key) same,
        )
    | inr z ↦ (
      a,
      At-insert_other n i (in_phase phase c) g.sections
            (λ e. ground (arith, (nat_eq_iff n i).1 e, z))
          ∙ h,
      refl,
    )
  ]

  set_section-Inv :
      ((i : ℕ) (a : Section) → At g i a → a.key ≡ c.key → i < n → a.phase ≡ settled)
      → ((j : ℕ) (b : Section)
          → At g j b
          → c.key ≡ b.key
          → n < j
          → b.phase ≢ waiting
          → phase ≡ settled)
      → Inv changed
  set_section-Inv ahead behind = record {
    below = λ i a h. let (b, there, _, _) = old i a h in inv.below i b there;
    tail = λ i a h.
        let (b, there, key, _) = old i a h in
        let (t, last, le) = inv.tail i b there in
        (t, subst (λ k. lookup k g.chains ≡ some t) key last, le);
    tail_key = λ k t h.
        let (b, there, key) = inv.tail_key k t h in
        let (b2, here, key2) = kept t b there in (b2, here, key2 ∙ key);
    latest = λ i j a b ha hb e l.
        let (a1, ia, ka, _) = old i a ha in
        let (b1, jb, kb, pb) = old j b hb in
        let (p, prev, le) = inv.latest i j a1 b1 ia jb (ka ∙ e ∙ sym kb) l in
        (p, sym pb ∙ prev, le);
    prev_key = λ j p b hb e.
        let (b1, jb, kb, pb) = old j b hb in
        let (d, there, key) = inv.prev_key j p b1 jb (pb ∙ e) in
        let (d2, here, key2) = kept p d there in (d2, here, key2 ∙ key ∙ kb);
    order = λ i j a b ha hb e l begun.
        let (a1, ia, ka, _) = old i a ha in
        let (b1, jb, kb, _) = old j b hb in
        elim (At-insert n i (in_phase phase c) a g.sections ha) [
          | inl (ni, same) ↦ elim (At-insert n j (in_phase phase c) b g.sections hb) [
            | inl (nj, _) ↦ absurd (omega (arith, ni, nj, l))
            | inr (_, there) ↦
                ap (λ s. s.phase) (sym same)
                ∙ behind j b there (ap (λ s. s.key) same ∙ e) (omega (arith, ni, l)) begun
          ]
          | inr (_, here) ↦ elim (At-insert n j (in_phase phase c) b g.sections hb) [
            | inl (nj, same) ↦
                ahead i a here (e ∙ sym (ap (λ s. s.key) same)) (omega (arith, nj, l))
            | inr (_, there) ↦ inv.order i j a b here there e l begun
          ]
        ];
  }

pub settle-Inv : (n : ℕ) (g : Guard) → Inv g → Inv (settle n g)
unfolding settle
settle-Inv n g inv = found (lookup n g.sections) refl
  where
    ending :
        (c : Section) (phase : Phase)
        → c.phase ≡ phase
        → At g n c
        → Inv (elim phase [ running ↦ set_section n (in_phase settled c) g | _ ↦ g ])
    ending c waiting e at = inv
    ending c settled e at = inv
    ending c running e at =
        set_section-Inv g n c settled inv at
          (λ i a ha key l. inv.order i n a c ha at key l (λ w. running_waits (sym e ∙ w)))
          (λ j b hb key l begun. refl)
      where
        running_waits : running ≢ waiting
        running_waits w = cc

    found : (o : Option Section) → lookup n g.sections ≡ o → Inv (settle_found n o g)
    found none e = inv
    found (some c) e = ending c c.phase refl e

pub begin-Inv : (n : ℕ) (g : Guard) → Inv g → Inv (begin n g)
unfolding begin
begin-Inv n g inv = found (lookup n g.sections) refl
  where
    before_settled :
        (p : ℕ) (d : Section)
        → At g p d
        → has_settled (lookup p g.sections) ≡ true
        → d.phase ≡ settled
    before_settled p d there h = by_phase d.phase (sym (ap has_settled there) ∙ h)
      where
        by_phase :
            (phase : Phase) → (elim phase [ settled ↦ true | _ ↦ false ]) ≡ true → phase ≡ settled
        by_phase settled e = refl
        by_phase waiting e = cc
        by_phase running e = cc

    ahead :
        (c : Section)
        → At g n c
        → may_run c.prev g ≡ true
        → (i : ℕ) (a : Section) → At g i a
        → a.key ≡ c.key
        → i < n
        → a.phase ≡ settled
    ahead c at may i a ha key l =
        let (p, prev, le) = inv.latest i n a c ha at key l in
        let (d, there, same) = inv.prev_key n p c at prev in
        let done = before_settled p d there (sym (ap (λ o. may_run o g) prev) ∙ may) in
        elim (Bool-cases (nat_eq i p)) [
          | inl y ↦
              let e = (nat_eq_iff i p).0 y in
              ap (λ s. s.phase) (some_inj (sym ha ∙ ap (λ k. lookup k g.sections) e ∙ there)) ∙ done
          | inr z ↦
              inv.order i p a d ha there (key ∙ sym same) (ground (arith, z, le))
                (λ w. settled_waits (sym done ∙ w))
        ]
      where
        settled_waits : settled ≢ waiting
        settled_waits w = cc

    starting :
        (c : Section) (phase : Phase)
        → c.phase ≡ phase
        → At g n c
        → Inv (elim phase [
          | waiting ↦ if may_run c.prev g then set_section n (in_phase running c) g else g
          | _ ↦ g
        ])
    starting c settled e at = inv
    starting c running e at = inv
    starting c waiting e at = elim (Bool-cases (may_run c.prev g)) [
      | inl y ↦ rw y (
          set_section-Inv g n c running inv at (ahead c at y) (λ j b hb key l begun.
            absurd (waits_settled (sym e ∙ inv.order n j c b at hb key l begun))))
      | inr z ↦ rw z inv
    ]
      where
        waits_settled : waiting ≢ settled
        waits_settled w = cc

    found : (o : Option Section) → lookup n g.sections ≡ o → Inv (begin_found n o g)
    found none e = inv
    found (some c) e = starting c c.phase refl e
