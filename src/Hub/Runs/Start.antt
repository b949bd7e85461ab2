-- ===== src/Hub/Runs/Start.antt =====
-- Starting, cancelling and retrying runs: packages/hub-core/src/run/service.ts. A section under
-- the guard of a space runs to its end before the next one of that space begins.
use murrmure.Prelude.{
  String, Bool, not, ◌&&◌, Option, none, some, List, [], ◌∷◌, if◌then◌else◌, map, get_or, non_empty,
  is_some,
}
use murrmure.Dict.{string_key}
use murrmure.Json.{
  Value, Values, Fields, null, undefined, str, arr, nil, cons, end, field, get, or_undefined,
}
use murrmure.Text.{to_text}
use murrmure.Hub.Sets.{add, distinct}
use murrmure.Hub.Ids.{strip_prefix, add_prefix, run_id_to_instance_id}
use murrmure.Hub.Grants.{can_start_flow}
use murrmure.Hub.Runs.{working, RunRow, SessionRow, Studio, insert_run}
use murrmure.Hub.Runs.Sessions.{get_session, update_session_spaces_touched}
use murrmure.Hub.Runs.Service.{
  SpaceEvent, InstanceCreate, Services, CreateRunInput, RunResult, to_run_dto,
}

pub record Hub (W : Type 0) : Type 0 where
  pub studio : Studio
  pub world : W

abbrev pub strip_space : Option String → Option String
strip_space none = none
strip_space (some space_id) = some (strip_prefix space_id)

-- `input.flow_id ?? null`.
abbrev pub or_null : Option String → Value
or_null none = null
or_null (some s) = str s

abbrev pub texts : List String → Values
texts [] = nil
texts (s ∷ ss) = cons (str s) (texts ss)

-- `String(a ?? b ?? run_id)`.
abbrev pub text_or : Value → String → String
text_or undefined d = d
text_or null d = d
text_or v d = to_text v

abbrev pub created_instance : Fields → String → String
created_instance body run_id =
    strip_prefix (text_or (get "instance_id" body) (text_or (get "aggregate_id" body) run_id))

abbrev pub new_run : CreateRunInput → (run_id session_bare ts : String) → Option String → RunRow
new_run input run_id session_bare ts instance_bare = record {
  run_id = run_id;
  session_id = session_bare;
  space_id = strip_space (non_empty input.space_id);
  flow_id = input.flow_id;
  flow_digest = input.flow_digest;
  lifecycle = working;
  exec_context = get_or input.input_params end;
  reference_run_ids = map strip_prefix (get_or input.reference_run_ids []);
  instance_id = instance_bare;
  started_at = ts;
  ended_at = none;
}

abbrev pub run_started : CreateRunInput → (space_id run_id session_bare : String) → SpaceEvent
run_started input space_id run_id session_bare = record {
  event_type = "mrmr.run.started";
  space_id = space_id;
  session_id = add_prefix "ses" session_bare;
  run_id = some (add_prefix "run" run_id);
  actor_id = input.actor_id;
  token_id = input.token_id;
  event_data = field "flow_id" (or_null input.flow_id) (
      field "flow_digest" (or_undefined input.flow_digest) (
        field "reference_run_ids" (arr (texts (get_or input.reference_run_ids [])))
          (field "from_step_id" (or_undefined input.from_step_id) end)));
}

abbrev pub add_touched : Option String → List String → List String
add_touched none spaces = spaces
add_touched (some space_id) spaces = add spaces (strip_prefix space_id)

abbrev pub instance_of : Option String → String → Option String
instance_of none run_id = none
instance_of (some bare) run_id = some (run_id_to_instance_id (add_prefix "run" run_id))

module _ {W : Type 0} (services : Services W) (before : String → String → Bool) where
  abbrev pub journal_start : Option String → CreateRunInput → (run_id session_bare : String) → W → W
  journal_start none input run_id session_bare w = w
  journal_start (some space_id) input run_id session_bare w =
      services.append_space_journal (run_started input space_id run_id session_bare) w

  -- The part of `createRun` behind the aggregate of the run.
  unfoldable pub store_run :
      CreateRunInput
      → SessionRow
      → (session_bare ts run_id : String) → Option String
      → Hub W
      → RunResult × Hub W
  store_run input session session_bare ts run_id instance_bare hub =
      let row = new_run input run_id session_bare ts instance_bare in
      let space_id = non_empty input.space_id in
      let spaces = add_touched space_id (distinct session.spaces_touched) in
      (
        RunResult.run_ok (to_run_dto row) (instance_of (non_empty instance_bare) run_id),
        record {
          studio = update_session_spaces_touched session_bare spaces (insert_run row hub.studio);
          world = journal_start space_id input run_id session_bare hub.world;
        },
      )

  abbrev pub instance_command :
      CreateRunInput → (space_id contract_ref_id : String) → InstanceCreate
  instance_command input space_id contract_ref_id = record {
    space_id = space_id;
    actor_id = input.actor_id;
    token_id = input.token_id;
    contract_ref_id = contract_ref_id;
    metadata = input.metadata;
  }

  abbrev pub store_created :
      CreateRunInput
      → SessionRow
      → (session_bare ts run_id : String) → Option Fields × W
      → Studio
      → RunResult × Hub W
  store_created input session session_bare ts run_id (none, w) studio = (
    RunResult.refused "INSTANCE_CREATE_FAILED" "Failed to create aggregate",
    record { studio = studio; world = w },
  )
  store_created input session session_bare ts run_id (some body, w) studio =
      let bare = created_instance body run_id in
      store_run input session session_bare ts bare (some bare)
        (record { studio = studio; world = w })

  -- `if (input.contract_ref_id && input.space_id)`.
  abbrev pub create_in :
      Option String
      → Option String
      → CreateRunInput
      → SessionRow
      → (session_bare ts run_id : String) → Hub W
      → RunResult × Hub W
  create_in (some contract_ref_id) (some space_id) input session session_bare ts run_id hub =
      store_created input session session_bare ts run_id
        (services.create_instance (instance_command input space_id contract_ref_id) hub.world)
        hub.studio
  create_in _ _ input session session_bare ts run_id hub =
      store_run input session session_bare ts run_id none hub

  abbrev pub create_for : Option SessionRow → CreateRunInput → Hub W → RunResult × Hub W
  create_for none input hub = (RunResult.refused "SESSION_NOT_FOUND" "Session not found", hub)
  create_for (some session) input hub =
      let now = services.now_iso hub.world in
      let id = services.ulid now.1 in
      if is_some (non_empty input.flow_id) && not (can_start_flow input.capabilities)
      then (RunResult.refused "SCOPE_ENFORCEMENT_FAILURE" "Grant lacks flow:run capability", hub)
      else create_in (non_empty input.contract_ref_id) (non_empty input.space_id) input session
          (strip_prefix input.session_id) now.0 id.0 (record { studio = hub.studio; world = id.1 })

  unfoldable pub create_run : CreateRunInput → Hub W → RunResult × Hub W
  create_run input hub =
      create_for (get_session (strip_prefix input.session_id) hub.studio) input hub
