-- ===== src/Hub/Runs/Service.antt =====
-- Starting, cancelling and retrying runs: packages/hub-core/src/run/service.ts. A section under
-- the guard of a space runs to its end before the next one of that space begins.
use murrmure.Prelude.{
  String, true, false, Option, none, some, List, if◌then◌else◌, map, non_empty, is_some, opt_str_eq,
}
use murrmure.Dict.{string_key}
use murrmure.Json.{Fields, end, field}
use murrmure.Hub.Ids.{after_prefix, strip_prefix, add_prefix}
use murrmure.Hub.Runs.{RunLifecycle, RunRow}
use murrmure.Hub.Runs.Admission.{FlowAdmissionError}

-- A call of `appendSpaceJournal`.
pub record SpaceEvent : Type 0 where
  pub event_type : String
  pub space_id : String
  pub session_id : String
  pub run_id : Option String
  pub actor_id : String
  pub token_id : String
  pub event_data : Fields

-- The command `instance.create` that a run with a contract executes.
pub record InstanceCreate : Type 0 where
  pub space_id : String
  pub actor_id : String
  pub token_id : String
  pub contract_ref_id : String
  pub metadata : Option Fields

-- The components that a run uses, with W their state: the ids and the clock, the command handler,
-- and the executors of a run. The handler gives the body of a success. None of them rejects.
pub record Services (W : Type 0) : Type 0 where
  pub ulid : W → String × W
  pub now_iso : W → String × W
  pub create_instance : InstanceCreate → W → Option Fields × W
  pub append_space_journal : SpaceEvent → W → W
  pub terminate_run_executors : (run_id reason : String) → W → W

pub record CreateRunInput : Type 0 where
  pub session_id : String
  pub space_id : Option String
  pub flow_id : Option String
  pub flow_digest : Option String
  pub input_params : Option Fields
  pub reference_run_ids : Option (List String)
  pub actor_id : String
  pub token_id : String
  pub capabilities : List String
  pub contract_ref_id : Option String
  pub metadata : Option Fields
  pub from_step_id : Option String

pub record RunDto : Type 0 where
  pub run_id : String
  pub session_id : String
  pub space_id : Option String
  pub flow_id : Option String
  pub flow_digest : Option String
  pub lifecycle : RunLifecycle
  pub exec_context : Fields
  pub reference_run_ids : List String
  pub started_at : String
  pub ended_at : Option String

pub data RunResult : Type 0 where
  refused : (code message : String) → RunResult
  over_capacity : FlowAdmissionError → RunResult
  run_ok : (run : RunDto) (instance_id : Option String) → RunResult

-- `const { [key]: _, ...rest } = fields`.
unfoldable pub omit : String → Fields → Fields
omit key end = end
omit key (field k v rest) =
    let later = omit key rest in
    elim (opt_str_eq (some k) (some key)) [ true ↦ later | false ↦ field k v later ]

abbrev pub with_space_prefix : String → String
with_space_prefix id = if is_some (after_prefix "spc_" id) then id else add_prefix "spc" id

abbrev pub dto_space : Option String → Option String
dto_space none = none
dto_space (some id) = some (with_space_prefix id)

unfoldable pub to_run_dto : RunRow → RunDto
to_run_dto row = record {
  run_id = add_prefix "run" row.run_id;
  session_id = add_prefix "ses" row.session_id;
  space_id = dto_space (non_empty row.space_id);
  flow_id = row.flow_id;
  flow_digest = row.flow_digest;
  lifecycle = row.lifecycle;
  exec_context = omit "_flow_snapshot" row.exec_context;
  reference_run_ids = map (λ id. add_prefix "run" (strip_prefix id)) row.reference_run_ids;
  started_at = row.started_at;
  ended_at = row.ended_at;
}
