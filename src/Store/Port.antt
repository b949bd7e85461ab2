-- ===== src/Store/Port.antt =====
-- `InMemoryPersistence`: what the store does outside transactions. The wall clock is an argument:
-- `now` is the text of `new Date().toISOString()` at the call, `expires` that of the lease's end.
use murrmure.Prelude.{
  ℕ, ◌+◌, String, Bool, true, false, not, ◌&&◌, Option, none, some, List, [], ◌∷◌, ◌++◌, ◌==◌,
  nat_eq, leb, ltb, str_gt, if◌then◌else◌, get_or, is_some, non_empty, opt_str_eq, keep, find, take,
  length, get_last?, exists, fold,
}
use murrmure.Prelude.Int.{ℤ, pos}
use murrmure.Dict.{Dict, string_key, nat_key, lookup, insert, remove, values}
use murrmure.Contracts.Journal.{JournalEntry}
use murrmure.Contracts.Aggregates.{Checkpoint}
use murrmure.Contracts.Waits.{WaitRow, WaitStatus, pending}
use murrmure.Contracts.Reactions.{DeliveryLogEntry, ReactionSpec, ReactionQueueItem}
use murrmure.Store.State.{
  MemoryStoreState, FanoutOutboxRow, Projection, ProjectionLock, projection_key,
}

abbrev pub default_limit : ℕ
default_limit = 1000

unfoldable pub tail_journal : ℕ → ℕ → MemoryStoreState → List JournalEntry
tail_journal from_seq limit s = take limit (keep (λ e. ltb from_seq e.seq) s.journal)

-- Another worker holds an unexpired lease. `now`, `worker_id` and the row decide.
abbrev pub leased_to_other : String → String → FanoutOutboxRow → Bool
leased_to_other now worker_id row = elim (non_empty row.lease_expires_at) [
  | none ↦ false
  | some until ↦ str_gt until now && not (opt_str_eq row.lease_owner (some worker_id))
]

abbrev pub lease_row : String → String → FanoutOutboxRow → FanoutOutboxRow
lease_row worker_id expires row = record row {
  lease_owner = some worker_id;
  lease_expires_at = some expires;
  attempt_count = row.attempt_count + 1;
}

module _ (limit : ℕ) (worker_id now expires : String) (journal : List JournalEntry) where
  -- The entry that the loop claims for a row, if it does not `continue`.
  unfoldable pub claimable : ℕ → FanoutOutboxRow → Option JournalEntry
  claimable seq row =
      if is_some (non_empty row.processed_at)
      then none
      else if leased_to_other now worker_id row
      then none
      else find (λ e. nat_eq e.seq seq) journal

  -- The loop over the outbox, with the entries claimed so far.
  unfoldable pub claim_rows :
      List JournalEntry → Dict ℕ FanoutOutboxRow → Dict ℕ FanoutOutboxRow × List JournalEntry
  unfolding claimable
  claim_rows claimed [] = ([], claimed)
  claim_rows claimed ((seq, row) ∷ rest) = elim (leb limit (length claimed)) [
    | true ↦ ((seq, row) ∷ rest, claimed)
    | false ↦ elim (claimable seq row) [
      | none ↦ let later = claim_rows claimed rest in ((seq, row) ∷ later.0, later.1)
      | some entry ↦
          let later = claim_rows (claimed ++ entry ∷ []) rest in
          ((seq, lease_row worker_id expires row) ∷ later.0, later.1)
    ]
  ]

unfoldable pub claim_fanout_batch :
    ℕ → String → String → String → MemoryStoreState → List JournalEntry × MemoryStoreState
unfolding claim_rows
claim_fanout_batch limit worker_id now expires s =
    let (outbox, claimed) = claim_rows limit worker_id now expires s.journal [] s.outbox in
    (claimed, record s { outbox = outbox })

unfoldable pub ack_fanout : String → ℕ → MemoryStoreState → MemoryStoreState
ack_fanout now seq s = elim (lookup seq s.outbox) [
  | none ↦ s
  | some row ↦ record s {
    outbox =
        insert seq
          (record row { processed_at = some now; lease_owner = none; lease_expires_at = none })
          s.outbox;
  }
]

unfoldable pub fail_fanout : ℕ → String → String → MemoryStoreState → MemoryStoreState
fail_fanout seq error retry_at s = elim (lookup seq s.outbox) [
  | none ↦ s
  | some row ↦ record s {
    outbox =
        insert seq
          (record row {
            lease_owner = none;
            lease_expires_at = none;
            next_attempt_at = some retry_at;
            last_error = some error;
          })
          s.outbox;
  }
]

unfoldable pub list_reactions : String → MemoryStoreState → List ReactionSpec
list_reactions scope_id s = keep (λ r. (r.scope_id == scope_id) && r.enabled) (values s.reactions)

unfoldable pub get_projection :
    String → String → Option String → MemoryStoreState → Option Projection
get_projection name scope_id aggregate_id s =
    lookup (projection_key name scope_id aggregate_id) s.projections

unfoldable pub get_max_seq : MemoryStoreState → ℕ
get_max_seq s = elim (get_last? s.journal) [ none ↦ 0 | some entry ↦ entry.seq ]

abbrev pub is_pending : WaitStatus → Bool
is_pending pending = true
is_pending _ = false

abbrev pub same_aggregate : Option String → Option String → Bool
same_aggregate wanted found = elim (non_empty wanted) [
  | none ↦ true
  | some id ↦ opt_str_eq found (some id)
]

unfoldable pub list_pending_waits : String → Option String → MemoryStoreState → List WaitRow
list_pending_waits scope_id aggregate_id s =
    keep
      (λ w.
        (w.scope_id == scope_id)
        && is_pending w.status
        && same_aggregate aggregate_id w.aggregate_id)
      (values s.waits)

unfoldable pub list_checkpoints : String → MemoryStoreState → List Checkpoint
list_checkpoints aggregate_id s = keep (λ c. c.aggregate_id == aggregate_id) (values s.checkpoints)

unfoldable pub includes : String → List String → Bool
includes x = exists (λ y. y == x)

abbrev pub set_add : List String → String → List String
set_add set x = if includes x set then set else set ++ x ∷ []

unfoldable pub claim_reaction_batch :
    ℕ → MemoryStoreState → List ReactionQueueItem × MemoryStoreState
unfolding includes
claim_reaction_batch limit s =
    let batch =
      take limit
        (keep (λ q. not (includes q.queue_id s.reaction_queue_claimed)) s.reaction_queue) in
    (
      batch,
      record s {
        reaction_queue_claimed =
            fold (λ set q. set_add set q.queue_id) s.reaction_queue_claimed batch;
      },
    )

-- `queue.splice(queue.findIndex(…), 1)`, if an item has the id.
unfoldable pub splice_item : String → List ReactionQueueItem → List ReactionQueueItem
splice_item queue_id [] = []
splice_item queue_id (q ∷ queue) =
    let later = splice_item queue_id queue in if q.queue_id == queue_id then queue else q ∷ later

unfoldable pub complete_reaction : String → DeliveryLogEntry → MemoryStoreState → MemoryStoreState
unfolding splice_item
complete_reaction queue_id delivery s = record s {
  delivery_log = s.delivery_log ++ delivery ∷ [];
  reaction_queue = splice_item queue_id s.reaction_queue;
  reaction_queue_claimed = keep (λ id. not (id == queue_id)) s.reaction_queue_claimed;
}

abbrev pub held_by_other : String → String → Option ProjectionLock → Bool
held_by_other now owner none = false
held_by_other now owner (some lock) = str_gt lock.expires_at now && not (lock.owner == owner)

unfoldable pub acquire_projection_lock :
    String → String → String → String → MemoryStoreState → Bool × MemoryStoreState
acquire_projection_lock now expires name owner s =
    if held_by_other now owner (lookup name s.projection_locks) then (false, s) else (
      true,
      record s {
        projection_locks =
            insert name (record { owner = owner; expires_at = expires }) s.projection_locks;
      },
    )

unfoldable pub release_projection_lock : String → String → MemoryStoreState → MemoryStoreState
release_projection_lock name owner s = elim (lookup name s.projection_locks) [
  | none ↦ s
  | some lock ↦
      if lock.owner == owner
      then record s { projection_locks = remove name s.projection_locks }
      else s
]

unfoldable pub get_projection_cursor : String → MemoryStoreState → ℤ
get_projection_cursor name s = get_or (lookup name s.projection_cursors) (pos 0)

unfoldable pub set_projection_cursor : String → ℤ → MemoryStoreState → MemoryStoreState
set_projection_cursor name last_seq s = record s {
  projection_cursors = insert name last_seq s.projection_cursors;
}
