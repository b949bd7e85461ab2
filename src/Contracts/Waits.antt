-- ===== src/Contracts/Waits.antt =====
-- packages/runtime-contracts/src/types/wait-condition.ts.
use murrmure.Prelude.{ℕ, String, Option}
use murrmure.Json.{Fields}
use murrmure.Contracts.Results.{CommandResult}
use murrmure.Contracts.Journal.{JournalEntry}
use murrmure.Contracts.Aggregates.{Decision}

-- `WaitCondition[] | undefined` is a type of its own, since the lists hold conditions again.
mutual
  pub data WaitCondition : Type 0 where
    state : String → WaitCondition
    entry : String → Option Fields → WaitCondition
    checkpoint : Option String → Option Decision → WaitCondition
    artifact : String → Option String → WaitCondition
    compound : (all_of any_of : Conditions) → WaitCondition

  pub data Conditions : Type 0 where
    missing : Conditions
    nil : Conditions
    cons : WaitCondition → Conditions → Conditions

pub data WaitStatus : Type 0 where
  pending resolved cancelled timed_out : WaitStatus

-- `delivery_mode` is always "in_process", and `expires_at` is set by nothing in the kernel.
pub record WaitRow : Type 0 where
  pub wait_id : String
  pub scope_id : String
  pub aggregate_id : Option String
  pub condition : WaitCondition
  pub bound_command_id : Option String
  pub status : WaitStatus
  pub registered_at_seq : ℕ
  pub created_at : String

pub data ResolutionStatus : Type 0 where
  matched denied timed_out : ResolutionStatus

pub record WaitResolution : Type 0 where
  pub wait_id : String
  pub status : ResolutionStatus
  pub entry : Option JournalEntry
  pub denial : Option CommandResult
