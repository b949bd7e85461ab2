-- ===== src/Contracts/Commands.antt =====
-- packages/runtime-contracts/src/types/kernel-command.ts.
use murrmure.Prelude.{String, Bool, Option}
use murrmure.Prelude.Int.{ℤ}
use murrmure.Json.{Fields}
use murrmure.Contracts.Results.{Provenance}
use murrmure.Contracts.Rules.{RuleRef}
use murrmure.Contracts.Waits.{WaitCondition}
use murrmure.Contracts.Reactions.{ReactionSpecInput}

pub record CreateCommand : Type 0 where
  pub rule_ref : RuleRef
  pub metadata : Option Fields

pub record TransitionCommand : Type 0 where
  pub aggregate_id : String
  pub event : String
  pub payload : Option Fields
  pub expected_revision : ℤ
  pub block_on : Option WaitCondition

pub record EventAppendCommand : Type 0 where
  pub aggregate_id : String
  pub event_type : String
  pub payload : Option Fields

pub record WaitRegisterCommand : Type 0 where
  pub condition : WaitCondition
  pub bound_command_id : Option String
  pub aggregate_id : Option String

pub record ReactionReplayCommand : Type 0 where
  pub reaction_id : String
  pub source_entry_id : String
  pub bypass_dedup : Bool
  pub reason : String

-- The `kind` of a command, with the fields of that kind.
pub data CommandKind : Type 0 where
  aggregate_create : CreateCommand → CommandKind
  state_transition : TransitionCommand → CommandKind
  event_append : EventAppendCommand → CommandKind
  wait_register : WaitRegisterCommand → CommandKind
  wait_cancel : (wait_id : String) → CommandKind
  reaction_register : ReactionSpecInput → CommandKind
  reaction_disable : (reaction_id : String) → CommandKind
  reaction_replay : ReactionReplayCommand → CommandKind

pub record KernelCommand : Type 0 where
  pub provenance : Provenance
  pub kind : CommandKind
