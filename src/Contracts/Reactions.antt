-- ===== src/Contracts/Reactions.antt =====
-- packages/runtime-contracts/src/types/reaction-spec.ts.
use murrmure.Prelude.{ℕ, String, Bool, Option, List}
use murrmure.Json.{Fields}
use murrmure.Contracts.Journal.{JournalEntry}

pub record ActionSpec : Type 0 where
  pub type : String
  pub config : Fields

pub record ReactionFilter : Type 0 where
  pub entry_types : Option (List String)
  pub source_scope_id : Option String
  pub aggregate_id : Option String

pub data KeyExtractor : Type 0 where
  entry_id json_path custom : KeyExtractor

pub record DedupSpec : Type 0 where
  pub required : Bool
  pub key_extractor : KeyExtractor
  pub key_path : Option String
  pub window_seconds : ℕ

pub data PartitionKey : Type 0 where
  scope aggregate scope_aggregate reaction : PartitionKey

pub record ReactionSpecInput : Type 0 where
  pub reaction_id : String
  pub scope_id : String
  pub filter : ReactionFilter
  pub action : ActionSpec
  pub dedup : DedupSpec
  pub partition : PartitionKey

pub record ReactionSpec : Type 0 where
  pub spec : ReactionSpecInput
  pub open spec use *
  pub registered_at_seq : ℕ
  pub enabled : Bool

pub data DeliveryOutcome : Type 0 where
  delivered dedup_skipped failed : DeliveryOutcome

pub record DeliveryLogEntry : Type 0 where
  pub entry_id : String
  pub reaction_id : String
  pub attempt_no : ℕ
  pub dedup_key : String
  pub outcome : DeliveryOutcome
  pub ts : String

pub record ReactionQueueItem : Type 0 where
  pub queue_id : String
  pub reaction_id : String
  pub entry_id : String
  pub partition_key : String
  pub fingerprint : String
  pub attempt_no : ℕ
  pub entry : JournalEntry
  pub enqueued_at : String
