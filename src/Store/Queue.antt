-- ===== src/Store/Queue.antt =====
-- Batches of the reaction queue.
use murrmure.Prelude.{
  ℕ, zero, suc, ◌≤◌, String, ◌≡◌, refl, true, false, not, ◌||◌, List, [], ◌∷◌, ◌++◌, arith, All,
  All-map, keep, keep-All, take, length, length-take, fold, exists, ◌==◌, eq_refl, Bool-cases, inl,
  inr,
}
use murrmure.Contracts.Reactions.{ReactionQueueItem}
use murrmure.Store.State.{MemoryStoreState}
use murrmure.Store.Port.{includes, set_add, claim_reaction_batch}

All-take : {A : Type 0} (P : A → Type 0) (n : ℕ) (xs : List A) → All P xs → All P (take n xs)
All-take P Prim.Native.Nat.zero xs h = tt
All-take P (suc n) [] h = tt
All-take P (suc n) (x ∷ xs) h = (h.0, All-take P n xs h.1)

includes-snoc : (x : String) (set : List String) → includes x (set ++ x ∷ []) ≡ true
unfolding includes
includes-snoc x [] = rw (eq_refl x) refl
includes-snoc x (y ∷ set) = elim (Bool-cases (y == x)) [
  | inl same ↦ rw same refl
  | inr other ↦ rw other (includes-snoc x set)
]

includes-grown :
    (x y : String) (set : List String) → includes x set ≡ true → includes x (set ++ y ∷ []) ≡ true
unfolding includes
includes-grown x y [] h = cc
includes-grown x y (z ∷ set) h = elim (Bool-cases (z == x)) [
  | inl same ↦ rw same refl
  | inr other ↦ rw other (includes-grown x y set (rest other h))
]
  where
    rest :
        (z == x) ≡ false
        → ((z == x) || exists (λ y. y == x) set) ≡ true
        → exists (λ y. y == x) set ≡ true
    rest other h' = ground (arith, other, h')

set_add-own : (set : List String) (x : String) → includes x (set_add set x) ≡ true
set_add-own set x = elim (Bool-cases (includes x set)) [
  | inl old ↦ rw old old
  | inr new_one ↦ rw new_one (includes-snoc x set)
]

set_add-keeps :
    (set : List String) (x y : String) → includes x set ≡ true → includes x (set_add set y) ≡ true
set_add-keeps set x y h = elim (Bool-cases (includes y set)) [
  | inl old ↦ rw old h
  | inr new_one ↦ rw new_one (includes-grown x y set h)
]

abbrev mark_all : List String → List ReactionQueueItem → List String
mark_all = fold (λ set q. set_add set q.queue_id)

mark_all-keeps :
    (qs : List ReactionQueueItem) (set : List String) (x : String)
    → includes x set ≡ true
    → includes x (mark_all set qs) ≡ true
mark_all-keeps [] set x h = h
mark_all-keeps (q ∷ qs) set x h =
    mark_all-keeps qs (set_add set q.queue_id) x (set_add-keeps set x q.queue_id h)

mark_all-own :
    (qs : List ReactionQueueItem) (set : List String)
    → All (λ q. includes q.queue_id (mark_all set qs) ≡ true) qs
mark_all-own [] set = tt
mark_all-own (q ∷ qs) set = (
  mark_all-keeps qs (set_add set q.queue_id) q.queue_id (set_add-own set q.queue_id),
  mark_all-own qs (set_add set q.queue_id),
)

unmarked :
    (limit : ℕ) (set : List String) (qs : List ReactionQueueItem)
    → All
        (λ q. includes q.queue_id set ≡ false)
        (take limit (keep (λ q. not (includes q.queue_id set)) qs))
unmarked limit set qs =
    All-take (λ q. includes q.queue_id set ≡ false) limit
      (keep (λ q. not (includes q.queue_id set)) qs)
      (All-map (λ (q : ReactionQueueItem). not (includes q.queue_id set) ≡ true)
        (λ q. includes q.queue_id set ≡ false) (λ q h. ground (arith, h))
        (keep (λ q. not (includes q.queue_id set)) qs)
        (keep-All (λ q. not (includes q.queue_id set)) qs))

-- Of two claims of the reaction queue in a row, the first marks each item of its batch as claimed, and the
-- second, which returns at most its limit of items, returns no item that is marked.
pub claim_reaction_batch-twice :
    (limit limit' : ℕ) (s : MemoryStoreState)
    → let first = claim_reaction_batch limit s in
      let second = claim_reaction_batch limit' first.1 in
      All (λ q. includes q.queue_id first.1.reaction_queue_claimed ≡ true) first.0
      × All (λ q. includes q.queue_id first.1.reaction_queue_claimed ≡ false) second.0
      × (length second.0 ≤ limit')
unfolding claim_reaction_batch
claim_reaction_batch-twice limit limit' s =
    let batch =
      take limit
        (keep (λ q. not (includes q.queue_id s.reaction_queue_claimed)) s.reaction_queue) in
    let set = mark_all s.reaction_queue_claimed batch in
    (
      mark_all-own batch s.reaction_queue_claimed,
      unmarked limit' set s.reaction_queue,
      omega
          (arith, length-take limit' (keep (λ q. not (includes q.queue_id set)) s.reaction_queue)),
    )
