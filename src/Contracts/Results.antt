-- ===== src/Contracts/Results.antt =====
-- packages/runtime-contracts/src/types/primitives.ts, provenance.ts, command-result.ts.
pub mod DenialCodes
use murrmure.Prelude.{ℕ, String, Option, none}
use murrmure.Json.{Fields}

pub data ActorKind : Type 0 where
  human agent system : ActorKind

pub data Outcome : Type 0 where
  success denial : Outcome

pub data AggregateStatus : Type 0 where
  active terminal archived : AggregateStatus

pub data CheckpointStatus : Type 0 where
  pending resolved rejected : CheckpointStatus

-- 200, 202, 400, 403, 404 and 409.
pub data HttpSemantic : Type 0 where
  http_ok accepted bad_request forbidden not_found conflict : HttpSemantic

pub record Provenance : Type 0 where
  pub scope_id : String
  pub actor_id : String
  pub credential_id : String
  pub aggregate_id : Option String
  pub command_id : Option String
  pub actor_kind : Option ActorKind

pub record CommandResult : Type 0 where
  pub outcome : Outcome
  pub http_semantic : HttpSemantic
  pub code : String
  pub body : Fields
  pub journal_entry_id : Option String
  pub seq : Option ℕ

-- Both builders are called without the optional entry id and seq.
abbrev pub success_result : String → Fields → CommandResult
success_result code body = record {
  outcome = success;
  http_semantic = http_ok;
  code = code;
  body = body;
  journal_entry_id = none;
  seq = none;
}

abbrev pub denial_result : String → Fields → HttpSemantic → CommandResult
denial_result code body http_semantic = record {
  outcome = denial;
  http_semantic = http_semantic;
  code = code;
  body = body;
  journal_entry_id = none;
  seq = none;
}
