-- ===== src/Store/Transaction.antt =====
-- `MemoryTransaction`: writes are collected and made by `commit`, but sequence numbers are taken
-- from the store, and waits are deleted there, at once.
use murrmure.Prelude.{
  ℕ, suc, ◌+◌, String, Bool, true, false, not, ◌&&◌, Option, none, some, List, [], ◌∷◌, ◌++◌, ◌==◌,
  nat_eq, str_gt, if◌then◌else◌, get_or, non_empty, exists,
}
use murrmure.Prelude.Int.{ℤ, pos, negsuc, int_eq}
use murrmure.Dict.{Dict, string_key, nat_key, lookup, insert, remove}
use murrmure.Json.{Fields}
use murrmure.Contracts.Results.{CommandResult, CheckpointStatus, pending, resolved, rejected}
use murrmure.Contracts.Journal.{JournalEntry, JournalEntryDraft, AllocatedSeq}
use murrmure.Contracts.Aggregates.{Aggregate, Checkpoint}
use murrmure.Contracts.Waits.{WaitRow}
use murrmure.Contracts.Reactions.{DeliveryLogEntry, ReactionSpec, ReactionQueueItem}
use murrmure.Store.State.{MemoryStoreState}

pub data Insertion : Type 0 where
  inserted exists_already : Insertion

pub data Cas : Type 0 where
  cas_ok cas_conflict : Cas

pub record CheckpointCas : Type 0 where
  pub id : String
  pub expected : CheckpointStatus
  pub next : CheckpointStatus
  pub result : Bool

pub record IdempotencyOp : Type 0 where
  pub command_id : String
  pub result : CommandResult
  pub outcome : Insertion

pub record DedupOp : Type 0 where
  pub key : String
  pub expires_at : String
  pub outcome : Insertion

pub record ProjectionOp : Type 0 where
  pub name : String
  pub scope_id : String
  pub aggregate_id : Option String
  pub seq : ℕ
  pub state : Fields

pub record AppliedOp : Type 0 where
  pub name : String
  pub seq : ℕ
  pub result : Bool

pub record MemoryTransaction : Type 0 where
  pub journal_drafts : List JournalEntry
  -- `expectedRevision` is stored in the source and read by nothing.
  pub snapshot_ops : List Aggregate
  pub checkpoint_ops : List Checkpoint
  pub checkpoint_cas_ops : List CheckpointCas
  pub idempotency_ops : List IdempotencyOp
  pub wait_ops : List WaitRow
  pub outbox_ops : List ℕ
  pub dedup_ops : List DedupOp
  pub delivery_ops : List DeliveryLogEntry
  pub projection_ops : List ProjectionOp
  pub reaction_ops : List ReactionSpec
  pub reaction_queue_ops : List ReactionQueueItem
  pub projection_applied_ops : List AppliedOp

abbrev pub new_transaction : MemoryTransaction
new_transaction = record {
  journal_drafts = [];
  snapshot_ops = [];
  checkpoint_ops = [];
  checkpoint_cas_ops = [];
  idempotency_ops = [];
  wait_ops = [];
  outbox_ops = [];
  dedup_ops = [];
  delivery_ops = [];
  projection_ops = [];
  reaction_ops = [];
  reaction_queue_ops = [];
  projection_applied_ops = [];
}

-- An operation reads and writes the store and the transaction.
abbrev pub TxM : Type 0 → Type 0
TxM A = MemoryStoreState → MemoryTransaction → A × MemoryStoreState × MemoryTransaction

abbrev pub next_in : String → Dict String ℕ → ℕ
next_in key counters = get_or (lookup key counters) 0 + 1

-- The numbers that `appendJournal` gives to a draft.
abbrev pub allocate : JournalEntryDraft → MemoryStoreState → AllocatedSeq
allocate draft s = record {
  seq = s.next_seq;
  scope_seq = some (next_in draft.scope_id s.scope_seq);
  aggregate_seq = elim (non_empty draft.aggregate_id) [
    | none ↦ none
    | some id ↦ some (next_in id s.aggregate_seq)
  ];
}

abbrev pub append_entry : JournalEntryDraft → MemoryStoreState → JournalEntry
append_entry draft s = record { draft = draft; allocated = allocate draft s }

unfoldable pub append_journal : JournalEntryDraft → TxM AllocatedSeq
append_journal draft s tx = (
  allocate draft s,
  record s {
    next_seq = suc s.next_seq;
    scope_seq = insert draft.scope_id (next_in draft.scope_id s.scope_seq) s.scope_seq;
    aggregate_seq = elim (non_empty draft.aggregate_id) [
      | none ↦ s.aggregate_seq
      | some id ↦ insert id (next_in id s.aggregate_seq) s.aggregate_seq
    ];
  },
  record tx { journal_drafts = tx.journal_drafts ++ append_entry draft s ∷ [] },
)

abbrev pub effective_revision : Option Aggregate → ℤ
effective_revision none = negsuc 0
effective_revision (some current) = pos current.revision

unfoldable pub upsert_snapshot_if_revision : Aggregate → ℤ → TxM Cas
upsert_snapshot_if_revision aggregate expected_revision s tx =
    if int_eq (effective_revision (lookup aggregate.aggregate_id s.snapshots)) expected_revision
    then (cas_ok, s, record tx { snapshot_ops = tx.snapshot_ops ++ aggregate ∷ [] })
    else (cas_conflict, s, tx)

unfoldable pub upsert_checkpoint : Checkpoint → TxM (Unit {0})
upsert_checkpoint checkpoint s tx =
    (tt, s, record tx { checkpoint_ops = tx.checkpoint_ops ++ checkpoint ∷ [] })

abbrev pub status_eq : CheckpointStatus → CheckpointStatus → Bool
status_eq pending pending = true
status_eq resolved resolved = true
status_eq rejected rejected = true
status_eq _ _ = false

abbrev pub has_status : Option Checkpoint → CheckpointStatus → Bool
has_status none expected = false
has_status (some current) expected = status_eq current.status expected

unfoldable pub cas_checkpoint_status : String → CheckpointStatus → CheckpointStatus → TxM Bool
cas_checkpoint_status id expected next s tx =
    let result = has_status (lookup id s.checkpoints) expected in
    let op : CheckpointCas = record {
      id = id;
      expected = expected;
      next = next;
      result = result;
    } in
    (result, s, record tx { checkpoint_cas_ops = tx.checkpoint_cas_ops ++ op ∷ [] })

unfoldable pub insert_idempotency : String → CommandResult → TxM Insertion
insert_idempotency command_id result s tx =
    let outcome = elim (lookup command_id s.idempotency) as (λ _. Insertion) [
      | none ↦ inserted
      | some _ ↦ exists_already
    ] in
    let op : IdempotencyOp = record {
      command_id = command_id;
      result = result;
      outcome = outcome;
    } in
    (outcome, s, record tx { idempotency_ops = tx.idempotency_ops ++ op ∷ [] })

-- `insertWait` and `updateWait` have one body.
unfoldable pub put_wait : WaitRow → TxM (Unit {0})
put_wait row s tx = (tt, s, record tx { wait_ops = tx.wait_ops ++ row ∷ [] })

unfoldable pub delete_wait : String → TxM (Unit {0})
delete_wait wait_id s tx = (tt, record s { waits = remove wait_id s.waits }, tx)

unfoldable pub insert_outbox : ℕ → TxM (Unit {0})
insert_outbox seq s tx = (tt, s, record tx { outbox_ops = tx.outbox_ops ++ seq ∷ [] })

-- A dedup key is live until its expiry; `now` is `new Date().toISOString()`.
abbrev pub dedup_is_live : String → Option String → Bool
dedup_is_live now existing = elim (non_empty existing) [
  | none ↦ false
  | some expires_at ↦ str_gt expires_at now
]

unfoldable pub insert_dedup : String → String → String → TxM Insertion
insert_dedup now key expires_at s tx =
    let outcome = if dedup_is_live now (lookup key s.dedup) then exists_already else inserted in
    let op : DedupOp = record { key = key; expires_at = expires_at; outcome = outcome } in
    (outcome, s, record tx { dedup_ops = tx.dedup_ops ++ op ∷ [] })

unfoldable pub append_delivery_log : DeliveryLogEntry → TxM (Unit {0})
append_delivery_log entry s tx = (tt, s, record tx { delivery_ops = tx.delivery_ops ++ entry ∷ [] })

unfoldable pub upsert_projection : ProjectionOp → TxM (Unit {0})
upsert_projection op s tx = (tt, s, record tx { projection_ops = tx.projection_ops ++ op ∷ [] })

unfoldable pub insert_reaction : ReactionSpec → TxM (Unit {0})
insert_reaction reaction s tx =
    (tt, s, record tx { reaction_ops = tx.reaction_ops ++ reaction ∷ [] })

unfoldable pub enqueue_reaction : ReactionQueueItem → TxM (Unit {0})
enqueue_reaction item s tx =
    (tt, s, record tx { reaction_queue_ops = tx.reaction_queue_ops ++ item ∷ [] })

abbrev pub applied_before : String → ℕ → List (String × ℕ) → Bool
applied_before name seq = exists (λ k. (k.0 == name) && nat_eq k.1 seq)

unfoldable pub try_mark_projection_applied : String → ℕ → TxM Bool
try_mark_projection_applied name seq s tx =
    let result = not (applied_before name seq s.projection_applied) in
    let op : AppliedOp = record { name = name; seq = seq; result = result } in
    (result, s, record tx { projection_applied_ops = tx.projection_applied_ops ++ op ∷ [] })
