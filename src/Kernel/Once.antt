-- ===== src/Kernel/Once.antt =====
-- A projection takes each journal entry once.
use murrmure.Prelude.{
  ℕ, String, ◌≡◌, refl, true, false, ◌&&◌, Option, none, some, List, [], ◌∷◌, ◌++◌, Bool-cases, inl,
  inr, nat_eq, nat_eq_iff, eq_refl, ◌==◌,
}
use murrmure.Prelude.Int.{ℤ, pos}
use murrmure.Dict.{string_key}
use murrmure.Json.{Fields}
use murrmure.Contracts.Journal.{JournalEntry}
use murrmure.Store.Transaction.{
  applied_before, try_mark_projection_applied, upsert_projection, new_transaction,
}
use murrmure.Store.Port.{get_projection, set_projection_cursor}
use murrmure.Store.Commit.{commit}
use murrmure.Kernel.Projections.{dispatch_projection, state_of, write_next}
use murrmure.Kernel.World.{
  World, ProjectionHandler, Result, ok, rejected, close, and_then, modify, run_in_transaction,
}

-- An entry that was applied before changes no projection.
applied-dispatch :
    (name : String) (handler : ProjectionHandler) (e : JournalEntry) (w : World)
    → applied_before name e.seq w.store.projection_applied ≡ true
    → (dispatch_projection name handler e w).1.store.projections ≡ w.store.projections
unfolding dispatch_projection run_in_transaction try_mark_projection_applied commit
applied-dispatch name handler e w h = rw h refl

-- What is written of a state leaves the marks as they are.
abbrev Marks : World → World → Type 0
Marks w w' =
    (w'.store.projection_applied ≡ w.store.projection_applied)
    × (w'.transaction.projection_applied_ops ≡ w.transaction.projection_applied_ops)

write_next-Marks :
    (name : String) (e : JournalEntry) (o : Option Fields) (w : World)
    → ((write_next name e o w).0 ≡ ok tt) × Marks w (write_next name e o w).1
unfolding upsert_projection
write_next-Marks name e none w = (refl, (refl, refl))
write_next-Marks name e (some next) w = (refl, (refl, refl))

added :
    (name : String) (seq : ℕ) (set : List (String × ℕ))
    → applied_before name seq (set ++ (name, seq) ∷ []) ≡ true
added name seq [] = rw (eq_refl name) (rw ((nat_eq_iff seq seq).1 refl) refl)
added name seq (k ∷ set) = elim (Bool-cases ((k.0 == name) && nat_eq k.1 seq)) [
  | inl same ↦ rw same refl
  | inr other ↦ rw other (added name seq set)
]

close-applied :
    (name : String) (seq : ℕ) (cursor : ℤ) (w w' : World) (r : Result (Unit {0}))
    → r ≡ ok tt
    → w'.store.projection_applied ≡ w.store.projection_applied
    → w'.transaction.projection_applied_ops ≡ record { name = name; seq = seq; result = true } ∷ []
    → applied_before name seq w.store.projection_applied ≡ false
    → applied_before name seq
        (and_then
          (close r w').0
          (close r w').1
          (λ (_ : Unit {0}). modify (set_projection_cursor name cursor))).1.store.projection_applied
      ≡ true
unfolding commit set_projection_cursor
close-applied name seq cursor w w' (ok tt) e marks ops fresh =
    rw (ops, marks) (rw fresh (added name seq w.store.projection_applied))
close-applied name seq cursor w w' (rejected message) e marks ops fresh = cc

-- After its dispatch an entry counts as applied.
dispatch-applied :
    (name : String) (handler : ProjectionHandler) (e : JournalEntry) (w : World)
    → applied_before name e.seq (dispatch_projection name handler e w).1.store.projection_applied
      ≡ true
unfolding dispatch_projection run_in_transaction try_mark_projection_applied commit
    set_projection_cursor
dispatch-applied name handler e w =
    elim (Bool-cases (applied_before name e.seq w.store.projection_applied)) [
      | inl before ↦ rw before before
      | inr fresh ↦
          let marking = record w {
            transaction = record new_transaction {
              projection_applied_ops = record { name = name; seq = e.seq; result = true } ∷ [];
            };
          } in
          let next = handler e (state_of (get_projection name e.scope_id e.aggregate_id w.store)) in
          let (returned, (marks, ops)) = write_next-Marks name e next marking in
          let r = write_next name e next marking in
          rw fresh (close-applied name e.seq (pos e.seq) w r.1 r.0 returned marks ops fresh)
    ]

-- To dispatch an entry to a projection a second time changes no projection.
pub dispatch_projection-twice :
    (name : String) (handler : ProjectionHandler) (e : JournalEntry) (w : World)
    → let once = (dispatch_projection name handler e w).1 in
      (dispatch_projection name handler e once).1.store.projections ≡ once.store.projections
dispatch_projection-twice name handler e w =
    let once = (dispatch_projection name handler e w).1 in
    applied-dispatch name handler e once (dispatch-applied name handler e w)
