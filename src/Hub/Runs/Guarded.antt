-- ===== src/Hub/Runs/Guarded.antt =====
-- Run starts under the guard of their space, and what changes a run later:
-- packages/hub-core/src/run/service.ts.
use murrmure.Prelude.{
  String, Bool, not, ◌&&◌, Option, none, some, List, [], ◌∷◌, if◌then◌else◌, template, find,
  non_empty, ◌==◌,
}
use murrmure.Dict.{lookup, values, string_key}
use murrmure.Json.{str, end, field}
use murrmure.Hub.Ids.{bare_space_id, prefixed_run, strip_prefix, add_prefix}
use murrmure.Hub.Runs.{
  RunLifecycle, failed, cancelled, same_lifecycle, RunRow, Studio, FlowIndexEntry, get_run,
  with_lifecycle, update_run_lifecycle,
}
use murrmure.Hub.Runs.Status.{is_run_terminal}
use murrmure.Hub.Runs.Lifecycle.{instance_state_to_lifecycle}
use murrmure.Hub.Runs.Admission.{FlowAdmission, admit_flow_run}
use murrmure.Hub.Runs.Sessions.{refresh_session_status}
use murrmure.Hub.Runs.Service.{SpaceEvent, Services, CreateRunInput, RunResult, to_run_dto}
use murrmure.Hub.Runs.Start.{Hub, create_run}

-- `getFlowIndexEntry` of packages/hub-persistence/src/memory.ts.
abbrev pub find_entry : Option String → String → Studio → Option FlowIndexEntry
find_entry none flow_id s = find (λ e. e.flow_id == flow_id) (values s.flow_index)
find_entry (some origin) flow_id s =
    lookup (template (bare_space_id origin ∷ ":" ∷ flow_id ∷ [])) s.flow_index

unfoldable pub get_flow_index_entry :
    (flow_id origin_space_id : String) → Studio → Option FlowIndexEntry
get_flow_index_entry flow_id origin_space_id s =
    find_entry (non_empty (some origin_space_id)) flow_id s

abbrev pub with_digest : Option String → CreateRunInput → CreateRunInput
with_digest flow_digest input = record {
  session_id = input.session_id;
  space_id = input.space_id;
  flow_id = input.flow_id;
  flow_digest = flow_digest;
  input_params = input.input_params;
  reference_run_ids = input.reference_run_ids;
  actor_id = input.actor_id;
  token_id = input.token_id;
  capabilities = input.capabilities;
  contract_ref_id = input.contract_ref_id;
  metadata = input.metadata;
  from_step_id = input.from_step_id;
}

pub record CancelInput : Type 0 where
  pub run_id : String
  pub actor_id : String
  pub token_id : String
  pub space_id : Option String

pub record RetryInput : Type 0 where
  pub run_id : String
  pub actor_id : String
  pub token_id : String
  pub space_id : Option String
  pub from_step_id : Option String
  pub capabilities : List String

-- `given ?? (run.space_id ? addSpaceId(run.space_id) : undefined)`.
abbrev pub space_or : Option String → Option String → Option String
space_or (some given) own = some given
space_or none none = none
space_or none (some own) = some (add_prefix "spc" own)

abbrev pub run_failed : CancelInput → RunRow → (space_id run_bare : String) → SpaceEvent
run_failed input run space_id run_bare = record {
  event_type = "mrmr.run.failed";
  space_id = space_id;
  session_id = add_prefix "ses" run.session_id;
  run_id = some (add_prefix "run" run_bare);
  actor_id = input.actor_id;
  token_id = input.token_id;
  event_data = field "reason" (str "cancelled") end;
}

abbrev pub retried : RetryInput → RunRow → (run_bare : String) → CreateRunInput
retried input run run_bare = record {
  session_id = add_prefix "ses" run.session_id;
  space_id = space_or input.space_id (non_empty run.space_id);
  flow_id = run.flow_id;
  flow_digest = run.flow_digest;
  input_params = none;
  reference_run_ids = some (add_prefix "run" run_bare ∷ []);
  actor_id = input.actor_id;
  token_id = input.token_id;
  capabilities = input.capabilities;
  contract_ref_id = none;
  metadata = none;
  from_step_id = input.from_step_id;
}

module _ {W : Type 0} (services : Services W) (before : String → String → Bool) where
  abbrev pub create_admitted :
      FlowAdmission → FlowIndexEntry → CreateRunInput → Hub W → RunResult × Hub W
  create_admitted (FlowAdmission.at_capacity error) entry input hub =
      (RunResult.over_capacity error, hub)
  create_admitted (FlowAdmission.admitted max) entry input hub =
      create_run services before (with_digest (some entry.digest) input) hub

  abbrev pub create_indexed :
      Option FlowIndexEntry
      → (space_id flow_id : String) → CreateRunInput
      → Hub W
      → RunResult × Hub W
  create_indexed none space_id flow_id input hub =
      (RunResult.refused "FLOW_NOT_FOUND" "Flow not indexed in target space", hub)
  create_indexed (some entry) space_id flow_id input hub =
      create_admitted (admit_flow_run before space_id flow_id hub.studio) entry input hub

  abbrev pub create_guarded :
      Option String → Option String → CreateRunInput → Hub W → RunResult × Hub W
  create_guarded (some space_id) (some flow_id) input hub =
      create_indexed (get_flow_index_entry flow_id (bare_space_id space_id) hub.studio) space_id
        flow_id input hub
  create_guarded _ _ input hub = create_run services before input hub

  unfoldable pub admit_and_create_run : CreateRunInput → Hub W → RunResult × Hub W
  admit_and_create_run input hub =
      create_guarded (non_empty input.space_id) (non_empty input.flow_id) input hub

  abbrev pub journal_cancel : Option String → CancelInput → RunRow → (run_bare : String) → W → W
  journal_cancel none input run run_bare w = w
  journal_cancel (some space_id) input run run_bare w =
      services.append_space_journal (run_failed input run space_id run_bare) w

  abbrev pub cancel_found :
      Option RunRow → (run_bare : String) → CancelInput → Hub W → RunResult × Hub W
  cancel_found none run_bare input hub = (RunResult.refused "RUN_NOT_FOUND" "Run not found", hub)
  cancel_found (some run) run_bare input hub =
      let now = services.now_iso hub.world in
      let stopped = services.terminate_run_executors (prefixed_run run_bare) "cancelled" now.1 in
      let studio = update_run_lifecycle run_bare cancelled (some now.0) hub.studio in
      let space_id = non_empty (space_or input.space_id (non_empty run.space_id)) in
      if is_run_terminal run.lifecycle
      then (RunResult.refused "RUN_TERMINAL" "Run is already terminal", hub)
      else (
        RunResult.run_ok (to_run_dto (with_lifecycle cancelled (some now.0) run)) none,
        record {
          studio = refresh_session_status run.session_id studio;
          world = journal_cancel space_id input run run_bare stopped;
        },
      )

  unfoldable pub cancel_run : CancelInput → Hub W → RunResult × Hub W
  cancel_run input hub =
      let run_bare = strip_prefix input.run_id in
      cancel_found (get_run run_bare hub.studio) run_bare input hub

  abbrev pub retry_found :
      Option RunRow → (run_bare : String) → RetryInput → Hub W → RunResult × Hub W
  retry_found none run_bare input hub = (RunResult.refused "RUN_NOT_FOUND" "Run not found", hub)
  retry_found (some run) run_bare input hub =
      if not (same_lifecycle run.lifecycle failed) && not (same_lifecycle run.lifecycle cancelled)
      then (
        RunResult.refused "RUN_NOT_RETRYABLE" "Only failed or cancelled runs can be retried",
        hub,
      )
      else admit_and_create_run (retried input run run_bare) hub

  unfoldable pub retry_run : RetryInput → Hub W → RunResult × Hub W
  retry_run input hub =
      let run_bare = strip_prefix input.run_id in
      retry_found (get_run run_bare hub.studio) run_bare input hub

  abbrev pub ended_when : RunLifecycle → String → Option String
  ended_when lifecycle ts = if is_run_terminal lifecycle then some ts else none

  abbrev pub sync_found : Option RunRow → (run_bare : String) → RunLifecycle → Hub W → Hub W
  sync_found none run_bare lifecycle hub = hub
  sync_found (some run) run_bare lifecycle hub =
      let now = services.now_iso hub.world in
      let studio =
        update_run_lifecycle run_bare lifecycle (ended_when lifecycle now.0) hub.studio in
      if same_lifecycle run.lifecycle lifecycle
      then hub
      else record { studio = refresh_session_status run.session_id studio; world = now.1 }

  -- `to_lower_case` is `toLowerCase`.
  unfoldable pub sync_run_lifecycle_from_instance :
      (String → String) → (instance_id state : String) → Hub W → Hub W
  sync_run_lifecycle_from_instance to_lower_case instance_id state hub =
      let run_bare = strip_prefix instance_id in
      sync_found (get_run run_bare hub.studio) run_bare
        (instance_state_to_lifecycle to_lower_case state) hub
