-- ===== src/Store/Monotone.antt =====
-- What the commits of a store never undo: the numbers of projections.
use murrmure.Prelude.{
  ℕ, ◌≤◌, String, ◌≡◌, subst, true, Option, none, some, List, [], ◌∷◌, arith, fold, ◌==◌,
  Bool-cases, inl, inr, eq_iff,
}
use murrmure.Dict.{Dict, string_key, lookup, lookup-insert}
use murrmure.Store.State.{MemoryStoreState, Projection, projection_key}
use murrmure.Store.Transaction.{MemoryTransaction, ProjectionOp}
use murrmure.Store.Commit.{not_older, run_projection, commit}

-- There is a projection, and its number is at least `n`.
abbrev pub Reached : ℕ → Option Projection → Type 0
Reached n none = ⊥
Reached n (some p) = n ≤ p.seq

run_projection-Reached :
    (n : ℕ) (key : String) (stored : Dict String Projection) (op : ProjectionOp)
    → Reached n (lookup key stored)
    → Reached n (lookup key (run_projection stored op))
run_projection-Reached n key stored op h =
    elim (Bool-cases (not_older op.seq (lookup own stored))) [
      | inr older ↦ rw older h
      | inl newer ↦ rw newer (
          rw (lookup-insert own key (record { seq = op.seq; state = op.state }) stored)
            (elim (Bool-cases (own == key)) [
              | inr other ↦ rw other h
              | inl same ↦ rw same (
                  later (lookup key stored)
                    (subst (λ k. not_older op.seq (lookup k stored) ≡ true)
                      ((eq_iff own key).0 same) newer)
                    h)
            ]))
    ]
  where
    own : String
    own = projection_key op.name op.scope_id op.aggregate_id

    later : (o : Option Projection) → not_older op.seq o ≡ true → Reached n o → n ≤ op.seq
    later none newer h = elim h [ ]
    later (some p) newer h = ground (arith, newer, h)

fold-Reached :
    (n : ℕ) (key : String) (ops : List ProjectionOp) (stored : Dict String Projection)
    → Reached n (lookup key stored)
    → Reached n (lookup key (fold run_projection stored ops))
fold-Reached n key [] stored h = h
fold-Reached n key (op ∷ ops) stored h =
    fold-Reached n key ops (run_projection stored op) (run_projection-Reached n key stored op h)

-- A commit never takes a projection back: where there was one with the number `n`, there is one
-- with at least that number, whatever the transaction has staged.
pub commit-Reached :
    (tx : MemoryTransaction) (s : MemoryStoreState) (key : String) (n : ℕ)
    → Reached n (lookup key s.projections)
    → Reached n (lookup key (commit tx s).projections)
unfolding commit
commit-Reached tx s key n h = fold-Reached n key tx.projection_ops s.projections h
