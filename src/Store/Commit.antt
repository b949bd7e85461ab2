-- ===== src/Store/Commit.antt =====
-- `MemoryTransaction.commit` and `rollback`.
use murrmure.Prelude.{
  ℕ, min, String, Bool, true, not, ◌&&◌, Option, none, some, List, [], ◌∷◌, ◌++◌, leb,
  if◌then◌else◌, fold,
}
use murrmure.Dict.{Dict, lookup, insert, string_key, nat_key}
use murrmure.Contracts.Results.{CommandResult}
use murrmure.Contracts.Aggregates.{Checkpoint}
use murrmure.Store.State.{MemoryStoreState, FanoutOutboxRow, Projection, projection_key}
use murrmure.Store.Transaction.{
  CheckpointCas, IdempotencyOp, DedupOp, ProjectionOp, AppliedOp, MemoryTransaction, inserted,
  exists_already, applied_before,
}

-- The loops of `commit`, each over one list of operations.
abbrev pub run_checkpoint_cas : Dict String Checkpoint → CheckpointCas → Dict String Checkpoint
run_checkpoint_cas checkpoints op =
    if op.result
    then (elim (lookup op.id checkpoints) [
      | none ↦ checkpoints
      | some cp ↦ insert op.id (record cp { status = op.next }) checkpoints
    ])
    else checkpoints

abbrev pub run_idempotency : Dict String CommandResult → IdempotencyOp → Dict String CommandResult
run_idempotency stored op = elim op.outcome [
  | inserted ↦ insert op.command_id op.result stored
  | exists_already ↦ stored
]

abbrev pub fresh_row : ℕ → FanoutOutboxRow
fresh_row seq = record {
  seq = seq;
  processed_at = none;
  lease_owner = none;
  lease_expires_at = none;
  attempt_count = 0;
  next_attempt_at = none;
  last_error = none;
}

abbrev pub run_dedup : Dict String String → DedupOp → Dict String String
run_dedup stored op = elim op.outcome [
  | inserted ↦ insert op.key op.expires_at stored
  | exists_already ↦ stored
]

abbrev pub not_older : ℕ → Option Projection → Bool
not_older seq none = true
not_older seq (some existing) = leb existing.seq seq

abbrev pub run_projection : Dict String Projection → ProjectionOp → Dict String Projection
run_projection stored op =
    let key = projection_key op.name op.scope_id op.aggregate_id in
    if not_older op.seq (lookup key stored)
    then insert key (record { seq = op.seq; state = op.state }) stored
    else stored

abbrev pub run_applied : List (String × ℕ) → AppliedOp → List (String × ℕ)
run_applied set op =
    if op.result && not (applied_before op.name op.seq set)
    then set ++ (op.name, op.seq) ∷ []
    else set

-- `commit()`. Each loop of the source writes a field of the store that no other loop touches.
unfoldable pub commit : MemoryTransaction → MemoryStoreState → MemoryStoreState
commit tx s = record s {
  journal = s.journal ++ tx.journal_drafts;
  snapshots = fold (λ m a. insert a.aggregate_id a m) s.snapshots tx.snapshot_ops;
  checkpoints =
      fold run_checkpoint_cas
        (fold (λ m cp. insert cp.checkpoint_id cp m) s.checkpoints tx.checkpoint_ops)
        tx.checkpoint_cas_ops;
  idempotency = fold run_idempotency s.idempotency tx.idempotency_ops;
  waits = fold (λ m wait. insert wait.wait_id wait m) s.waits tx.wait_ops;
  outbox = fold (λ m seq. insert seq (fresh_row seq) m) s.outbox tx.outbox_ops;
  dedup = fold run_dedup s.dedup tx.dedup_ops;
  delivery_log = s.delivery_log ++ tx.delivery_ops;
  projections = fold run_projection s.projections tx.projection_ops;
  reactions = fold (λ m r. insert r.reaction_id r m) s.reactions tx.reaction_ops;
  reaction_queue = s.reaction_queue ++ tx.reaction_queue_ops;
  projection_applied = fold run_applied s.projection_applied tx.projection_applied_ops;
}

-- `rollback()`: the counters of scopes and aggregates stay advanced.
unfoldable pub rollback : MemoryTransaction → MemoryStoreState → MemoryStoreState
rollback tx s = record s {
  next_seq = fold (λ n entry. min n entry.seq) s.next_seq tx.journal_drafts;
}
