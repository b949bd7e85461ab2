-- ===== src/Contracts/Journal.antt =====
-- packages/runtime-contracts/src/types/journal-entry.ts.
pub mod EntryTypes
use murrmure.Prelude.{ℕ, String, Bool, Option}
use murrmure.Json.{Fields}
use murrmure.Contracts.Results.{Outcome}

pub data EntryKind : Type 0 where
  command event system : EntryKind

pub record JournalDenial : Type 0 where
  pub code : String
  pub message : String
  pub retryable : Bool
  pub context : Option Fields

-- `payload_ref`, `ext` and `causation` are set by nothing in the kernel and are left out.
pub record JournalEntryDraft : Type 0 where
  pub entry_id : String
  pub kind : EntryKind
  pub outcome : Outcome
  pub scope_id : String
  pub aggregate_id : Option String
  pub actor_id : String
  pub credential_id : String
  pub command_id : Option String
  pub ts : String
  pub type : String
  pub payload : Fields
  pub denial : Option JournalDenial
  -- `correlation?.command_id`.
  pub correlation : Option String

pub record AllocatedSeq : Type 0 where
  pub seq : ℕ
  pub scope_seq : Option ℕ
  pub aggregate_seq : Option ℕ

pub record JournalEntry : Type 0 where
  pub draft : JournalEntryDraft
  pub open draft use *
  pub allocated : AllocatedSeq
  pub open allocated use *
