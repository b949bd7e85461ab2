-- ===== src/Contracts/Rules.antt =====
-- packages/runtime-contracts/src/compatibility/rule-v09.ts and schemas/core.ts: rule artifacts.
use murrmure.Prelude.{ℕ, String, Bool, Option, none, some, List, map, exists, ◌==◌, if◌then◌else◌}
use murrmure.Json.{Fields}
use murrmure.Contracts.Results.{AggregateStatus, active, terminal}

pub record RuleRef : Type 0 where
  pub rule_ref_id : String
  pub digest : String
  pub version : String

pub data QuorumMode : Type 0 where
  any all count : QuorumMode

pub record CheckpointRule : Type 0 where
  pub quorum : QuorumMode
  pub count : Option ℕ
  pub assignees : List String

pub record RuleTransition : Type 0 where
  pub id : String
  pub from : String
  pub to : String
  pub event : String
  pub actors : List String
  pub condition : Option String
  pub checkpoint : Option CheckpointRule

pub record EventDeclaration : Type 0 where
  pub type : String
  pub schema : Fields

pub record RawState : Type 0 where
  pub id : String
  pub kind : Option AggregateStatus

pub record StateDef : Type 0 where
  pub id : String
  pub kind : AggregateStatus

pub record RuleArtifactParsed : Type 0 where
  pub id : String
  pub version : String
  pub initial_state : String
  pub terminal_states : List String
  pub metadata_schema : Fields
  pub states : List RawState
  pub transitions : List RuleTransition
  pub declarations : Option (List EventDeclaration)

pub record RuleArtifact : Type 0 where
  pub id : String
  pub version : String
  pub initial_state : String
  pub terminal_states : List String
  pub metadata_schema : Fields
  pub states : List StateDef
  pub transitions : List RuleTransition
  -- `events?.declarations`.
  pub declarations : Option (List EventDeclaration)

unfoldable pub includes : List String → String → Bool
includes xs x = exists (λ y. y == x) xs

abbrev pub normalize_state : List String → RawState → StateDef
normalize_state terminal_states s = record {
  id = s.id;
  kind = elim s.kind [
    | some kind ↦ kind
    | none ↦ if includes terminal_states s.id then terminal else active
  ];
}

unfoldable pub normalize_rule_artifact : RuleArtifactParsed → RuleArtifact
normalize_rule_artifact raw = record {
  id = raw.id;
  version = raw.version;
  initial_state = raw.initial_state;
  terminal_states = raw.terminal_states;
  metadata_schema = raw.metadata_schema;
  states = map (normalize_state raw.terminal_states) raw.states;
  transitions = raw.transitions;
  declarations = raw.declarations;
}
