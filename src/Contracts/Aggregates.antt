-- ===== src/Contracts/Aggregates.antt =====
-- packages/runtime-contracts/src/types/aggregate.ts and checkpoint.ts.
use murrmure.Prelude.{ℕ, String, Option, List}
use murrmure.Json.{Fields}
use murrmure.Contracts.Results.{AggregateStatus, CheckpointStatus}
use murrmure.Contracts.Rules.{RuleRef, QuorumMode}

pub record Aggregate : Type 0 where
  pub aggregate_id : String
  pub scope_id : String
  pub rule_ref : RuleRef
  pub state : String
  pub metadata : Fields
  pub revision : ℕ
  pub status : AggregateStatus
  pub created_at : String
  pub updated_at : String

pub data Decision : Type 0 where
  approved rejected : Decision

pub record CheckpointVote : Type 0 where
  pub actor_id : String
  pub decision : Decision
  pub ts : String

pub record CheckpointQuorum : Type 0 where
  pub mode : QuorumMode
  pub count : ℕ
  pub assignees : List String

pub record Checkpoint : Type 0 where
  pub checkpoint_id : String
  pub aggregate_id : String
  pub scope_id : String
  pub transition_id : String
  pub from_state : String
  pub to_state : String
  pub status : CheckpointStatus
  pub quorum : CheckpointQuorum
  pub votes : List CheckpointVote
  pub created_at : String
  pub resolved_at : Option String
