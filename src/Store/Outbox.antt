-- ===== src/Store/Outbox.antt =====
-- What `claimFanoutBatch`, `ackFanout` and `failFanout` do to the outbox.
use murrmure.Prelude.{
  ℕ, ◌≤◌, String, ◌≡◌, ◌≢◌, refl, sym, ap, str_gt, opt_str_eq, eq_iff, Option, ◌∙◌, true, false,
  ◌==◌, none, some, List, [], ◌∷◌, ◌++◌, arith, length, length-append, leb, nat_eq, nat_eq_iff,
  if◌then◌else◌, Bool-cases, Option-cases, inl, inr, is_some, non_empty,
}
use murrmure.Dict.{Dict, nat_key, lookup, insert, lookup-insert_self}
use murrmure.Contracts.Journal.{JournalEntry}
use murrmure.Store.State.{MemoryStoreState, FanoutOutboxRow}
use murrmure.Store.Port.{
  claimable, claim_rows, claim_fanout_batch, leased_to_other, ack_fanout, lease_row,
}

module _ (limit : ℕ) (worker_id now expires : String) (journal : List JournalEntry) where
  length-claim_rows :
      (claimed : List JournalEntry) (rows : Dict ℕ FanoutOutboxRow)
      → length claimed ≤ limit
      → length (claim_rows limit worker_id now expires journal claimed rows).1 ≤ limit
  unfolding claim_rows
  length-claim_rows claimed [] h = h
  length-claim_rows claimed ((seq, row) ∷ rest) h = elim (Bool-cases (leb limit (length claimed))) [
    | inl full ↦ rw (full, claim_rows) h
    | inr room ↦ elim (Option-cases (claimable limit worker_id now expires journal seq row)) [
      | inl e ↦ rw (room, claim_rows) (rw e (length-claim_rows claimed rest h))
      | inr (entry, e) ↦
          rw (room, claim_rows)
            (rw e (
              length-claim_rows (claimed ++ entry ∷ []) rest
                (ground (arith, room, h, length-append claimed (entry ∷ [])))))
    ]
  ]

  -- A row that the loop may not claim stays as it is.
  lookup-claim_rows :
      (claimed : List JournalEntry) (rows : Dict ℕ FanoutOutboxRow) (seq : ℕ)
      (row : FanoutOutboxRow)
      → lookup seq rows ≡ some row
      → claimable limit worker_id now expires journal seq row ≡ none
      → lookup seq (claim_rows limit worker_id now expires journal claimed rows).0 ≡ some row
  unfolding claim_rows lookup
  lookup-claim_rows claimed [] seq row found free = cc
  lookup-claim_rows claimed ((j, r) ∷ rest) seq row found free =
      elim (Bool-cases (leb limit (length claimed))) [
        | inl full ↦ rw (full, claim_rows) found
        | inr room ↦ elim (Option-cases (claimable limit worker_id now expires journal j r)) [
          | inl e ↦
              rw (room, claim_rows)
                (rw e (elim (Bool-cases (nat_eq j seq)) [
                  | inl same ↦ rw same (kept j same found)
                  | inr other ↦
                      rw other (lookup-claim_rows claimed rest seq row (later other found) free)
                ]))
          | inr (entry, e) ↦
              rw (room, claim_rows)
                (rw e (elim (Bool-cases (nat_eq j seq)) [
                  | inl same ↦ rw same (clash entry same found e)
                  | inr other ↦ rw other (
                      lookup-claim_rows (claimed ++ entry ∷ []) rest seq row (later other found)
                        free)
                ]))
        ]
      ]
    where
      kept :
          (k : ℕ)
          → nat_eq k seq ≡ true
          → (if nat_eq k seq then some r else lookup seq rest) ≡ some row
          → some r ≡ some row
      kept k same h = ground (arith, same, h)

      clash :
          (entry : JournalEntry)
          → nat_eq j seq ≡ true
          → (if nat_eq j seq then some r else lookup seq rest) ≡ some row
          → claimable limit worker_id now expires journal j r ≡ some entry
          → some (lease_row worker_id expires r) ≡ some row
      clash entry same h e =
          let one = (nat_eq_iff j seq).0 same in
          let two = kept j same h in absurd (taken (sym e ∙ claims one two ∙ free))
        where
          claims :
              j ≡ seq
              → some r ≡ some row
              → claimable limit worker_id now expires journal j r
                ≡ claimable limit worker_id now expires journal seq row
          claims one two = cc

          taken : some entry ≡ none → ⊥
          taken h' = cc

      later :
          nat_eq j seq ≡ false
          → (if nat_eq j seq then some r else lookup seq rest) ≡ some row
          → lookup seq rest ≡ some row
      later other h = ground (arith, other, h)

-- The row has a time at which it was processed, or a lease with an owner other than the worker, or
-- with none, that runs out after now.
pub data IsTaken (now worker_id : String) (row : FanoutOutboxRow) : Type 0 where
  was_processed :
      (at : String) → row.processed_at ≡ some at → (at == "") ≡ false → IsTaken now worker_id row
  is_leased :
      (until : String)
      → row.lease_expires_at ≡ some until
      → (until == "") ≡ false
      → str_gt until now ≡ true
      → row.lease_owner ≢ some worker_id
      → IsTaken now worker_id row

other_owner :
    (o : Option String) (worker_id : String)
    → o ≢ some worker_id
    → opt_str_eq o (some worker_id) ≡ false
other_owner none worker_id h = refl
other_owner (some owner) worker_id h = elim (Bool-cases (owner == worker_id)) [
  | inl y ↦ absurd (h (ap some ((eq_iff owner worker_id).0 y)))
  | inr n ↦ n
]

IsTaken-leased :
    (now worker_id until : String) (row : FanoutOutboxRow)
    → row.lease_expires_at ≡ some until
    → (until == "") ≡ false
    → str_gt until now ≡ true
    → row.lease_owner ≢ some worker_id
    → leased_to_other now worker_id row ≡ true
IsTaken-leased now worker_id until row e given later other =
    rw e
      (rw (given, leased_to_other) (rw (later, other_owner row.lease_owner worker_id other) refl))

IsTaken-claimable :
    (limit : ℕ) (worker_id now expires : String) (journal : List JournalEntry) (seq : ℕ)
    (row : FanoutOutboxRow)
    → IsTaken now worker_id row
    → claimable limit worker_id now expires journal seq row ≡ none
unfolding claimable
IsTaken-claimable limit worker_id now expires journal seq row (was_processed at e given) =
    rw e (rw given refl)
IsTaken-claimable limit worker_id now expires journal seq row
      (is_leased until e given later other) =
    elim (Bool-cases (is_some (non_empty row.processed_at))) [
      | inl done ↦ rw done refl
      | inr open_row ↦
          rw open_row (rw (IsTaken-leased now worker_id until row e given later other) refl)
    ]

-- A worker claims at most `limit` entries.
pub length-claim_fanout_batch :
    (limit : ℕ) (worker_id now expires : String) (s : MemoryStoreState)
    → length (claim_fanout_batch limit worker_id now expires s).0 ≤ limit
unfolding claim_fanout_batch
length-claim_fanout_batch limit worker_id now expires s =
    length-claim_rows limit worker_id now expires s.journal [] s.outbox (omega arith)

-- A claim leaves a row as it is when the row has a time at which it was processed, or has a lease
-- that runs out after now and whose owner is not the worker.
pub claim_fanout_batch-leaves :
    (limit : ℕ) (worker_id now expires : String) (s : MemoryStoreState) (seq : ℕ)
    (row : FanoutOutboxRow)
    → lookup seq s.outbox ≡ some row
    → IsTaken now worker_id row
    → lookup seq (claim_fanout_batch limit worker_id now expires s).1.outbox ≡ some row
unfolding claim_fanout_batch
claim_fanout_batch-leaves limit worker_id now expires s seq row found busy =
    lookup-claim_rows limit worker_id now expires s.journal [] s.outbox seq row found
      (IsTaken-claimable limit worker_id now expires s.journal seq row busy)

-- After an entry with an outbox row was acknowledged, with a time that is not empty, a claim leaves
-- its row as it is.
pub ack_fanout-claim :
    (limit : ℕ) (worker_id now later expires : String) (s : MemoryStoreState) (seq : ℕ)
    (row : FanoutOutboxRow)
    → lookup seq s.outbox ≡ some row
    → (later == "") ≡ false
    → let acked = ack_fanout later seq s in
      lookup seq (claim_fanout_batch limit worker_id now expires acked).1.outbox
      ≡ lookup seq acked.outbox
unfolding ack_fanout
ack_fanout-claim limit worker_id now later expires s seq row found dated =
    let done = record row {
      processed_at = some later;
      lease_owner = none;
      lease_expires_at = none;
    } in
    let acked = record s { outbox = insert seq done s.outbox } in
    let stored = lookup-insert_self seq done s.outbox in
    rw (found, ack_fanout)
      (claim_fanout_batch-leaves limit worker_id now expires acked seq done stored
          (was_processed later refl dated)
        ∙ sym stored)
