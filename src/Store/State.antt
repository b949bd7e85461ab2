-- ===== src/Store/State.antt =====
-- `MemoryStoreState`: what the store holds between transactions.
use murrmure.Prelude.{ℕ, String, Option, List, [], ◌∷◌, template, get_or}
use murrmure.Prelude.Int.{ℤ}
use murrmure.Dict.{Dict}
use murrmure.Json.{Fields}
use murrmure.Contracts.Results.{CommandResult}
use murrmure.Contracts.Journal.{JournalEntry}
use murrmure.Contracts.Aggregates.{Aggregate, Checkpoint}
use murrmure.Contracts.Waits.{WaitRow}
use murrmure.Contracts.Reactions.{DeliveryLogEntry, ReactionSpec, ReactionQueueItem}

-- `null` is `none`.
pub record FanoutOutboxRow : Type 0 where
  pub seq : ℕ
  pub processed_at : Option String
  pub lease_owner : Option String
  pub lease_expires_at : Option String
  pub attempt_count : ℕ
  pub next_attempt_at : Option String
  pub last_error : Option String

pub record Projection : Type 0 where
  pub seq : ℕ
  pub state : Fields

pub record ProjectionLock : Type 0 where
  pub owner : String
  pub expires_at : String

-- A set is the list of its members. The keys `${name}:${seq}` of `projectionApplied` determine
-- name and number, and are kept as pairs.
pub record MemoryStoreState : Type 0 where
  pub journal : List JournalEntry
  pub snapshots : Dict String Aggregate
  pub checkpoints : Dict String Checkpoint
  pub idempotency : Dict String CommandResult
  pub waits : Dict String WaitRow
  pub dedup : Dict String String
  pub delivery_log : List DeliveryLogEntry
  pub projections : Dict String Projection
  pub reactions : Dict String ReactionSpec
  pub outbox : Dict ℕ FanoutOutboxRow
  pub next_seq : ℕ
  pub scope_seq : Dict String ℕ
  pub aggregate_seq : Dict String ℕ
  pub reaction_queue : List ReactionQueueItem
  pub reaction_queue_claimed : List String
  pub projection_applied : List (String × ℕ)
  pub projection_cursors : Dict String ℤ
  pub projection_locks : Dict String ProjectionLock

abbrev pub create_memory_store_state : MemoryStoreState
create_memory_store_state = record {
  journal = [];
  snapshots = [];
  checkpoints = [];
  idempotency = [];
  waits = [];
  dedup = [];
  delivery_log = [];
  projections = [];
  reactions = [];
  outbox = [];
  next_seq = 1;
  scope_seq = [];
  aggregate_seq = [];
  reaction_queue = [];
  reaction_queue_claimed = [];
  projection_applied = [];
  projection_cursors = [];
  projection_locks = [];
}

unfoldable pub projection_key : String → String → Option String → String
projection_key name scope_id aggregate_id =
    template (name ∷ ":" ∷ scope_id ∷ ":" ∷ get_or aggregate_id "_" ∷ [])
