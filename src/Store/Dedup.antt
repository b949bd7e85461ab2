-- ===== src/Store/Dedup.antt =====
-- Deduplication keys, from one transaction to the next.
use murrmure.Prelude.{String, ◌≡◌, refl, true, false, ◌==◌, str_gt, Bool-cases, inl, inr}
use murrmure.Dict.{string_key, lookup, lookup-insert_self}
use murrmure.Store.State.{MemoryStoreState}
use murrmure.Store.Transaction.{
  inserted, exists_already, dedup_is_live, insert_dedup, new_transaction,
}
use murrmure.Store.Commit.{commit}

-- The store after a transaction that inserts one key.
abbrev pub claimed : (now key expires : String) → MemoryStoreState → MemoryStoreState
claimed now key expires s = let r = insert_dedup now key expires s new_transaction in commit r.2 s

-- The key stays live until its expiry.
claimed-is_live :
    (now later key expires : String) (s : MemoryStoreState)
    → (insert_dedup now key expires s new_transaction).0 ≡ inserted
    → (expires == "") ≡ false
    → str_gt expires later ≡ true
    → dedup_is_live later (lookup key (claimed now key expires s).dedup) ≡ true
unfolding insert_dedup commit
claimed-is_live now later key expires s got dated live =
    elim (Bool-cases (dedup_is_live now (lookup key s.dedup))) [
      | inl taken ↦ absurd (held taken got)
      | inr open_key ↦
          rw open_key (rw (lookup-insert_self key expires s.dedup) (rw (dated, dedup_is_live) live))
    ]
  where
    held :
        dedup_is_live now (lookup key s.dedup) ≡ true
        → (insert_dedup now key expires s new_transaction).0 ≡ inserted
        → ⊥
    held taken got' = cc (taken, got')

-- After a transaction has inserted a key with an expiry that is not empty, an insertion of the same
-- key at any time before the expiry says that it exists, and its commit leaves the expiry as it
-- is.
pub insert_dedup-twice :
    (now later key expires expires' : String) (s : MemoryStoreState)
    → (insert_dedup now key expires s new_transaction).0 ≡ inserted
    → (expires == "") ≡ false
    → str_gt expires later ≡ true
    → let once = claimed now key expires s in
      ((insert_dedup later key expires' once new_transaction).0 ≡ exists_already)
      × ((claimed later key expires' once).dedup ≡ once.dedup)
unfolding insert_dedup commit
insert_dedup-twice now later key expires expires' s got dated live =
    rw (claimed-is_live now later key expires s got dated live) (refl, refl)
