-- ===== src/Hub/Runs/Cancellation.antt =====
-- Cancelling a session with its runs: packages/hub-core/src/run/service.ts.
use murrmure.Prelude.{
  String, Bool, true, ◌||◌, Option, none, some, List, [], ◌∷◌, if◌then◌else◌, map, find, is_some,
  non_empty, fold,
}
use murrmure.Dict.{string_key}
use murrmure.Json.{end}
use murrmure.Hub.Ids.{prefixed_run, strip_prefix, add_prefix}
use murrmure.Hub.Runs.{
  RunLifecycle, working, input_required, cancelled, same_lifecycle, RunRow, SessionRow,
  SessionStatus, session_cancelled, Studio, bare_session_id, list_runs_by_session,
  update_run_lifecycle,
}
use murrmure.Hub.Runs.Status.{derive_session_status}
use murrmure.Hub.Runs.Sessions.{get_session, update_session, with_status, update_session_status}
use murrmure.Hub.Runs.Service.{SpaceEvent, Services, with_space_prefix}
use murrmure.Hub.Runs.Start.{Hub}

pub record CancelSessionInput : Type 0 where
  pub session_id : String
  pub actor_id : String
  pub token_id : String
  pub space_id : Option String

-- `created_by` is left out, as in the row.
pub record SessionDto : Type 0 where
  pub session_id : String
  pub title : String
  pub subject : Option String
  pub status : SessionStatus
  pub spaces_touched : List String

pub data SessionResult : Type 0 where
  session_refused : (code message : String) → SessionResult
  session_ok : SessionDto → SessionResult

abbrev pub to_session_dto : SessionRow → SessionDto
to_session_dto row = record {
  session_id = add_prefix "ses" row.session_id;
  title = row.title;
  subject = row.subject;
  status = row.status;
  spaces_touched = map with_space_prefix row.spaces_touched;
}

abbrev pub with_cancel_request : String → SessionRow → SessionRow
with_cancel_request at row = record {
  session_id = row.session_id;
  title = row.title;
  subject = row.subject;
  status = session_cancelled;
  spaces_touched = row.spaces_touched;
  actor_id = row.actor_id;
  cancel_requested_at = some at;
}

-- `markSessionCancelRequested` of packages/hub-persistence/src/memory.ts.
unfoldable pub mark_session_cancel_requested : (session_id at : String) → Studio → Studio
mark_session_cancel_requested session_id at s =
    update_session (with_cancel_request at) (bare_session_id session_id) (get_session session_id s)
      s

abbrev pub is_stoppable : RunLifecycle → Bool
is_stoppable l = same_lifecycle l working || same_lifecycle l input_required

abbrev pub first_space : List String → Option String
first_space [] = none
first_space (s ∷ spaces) = non_empty (some s)

abbrev pub run_space : Option RunRow → Option String
run_space none = none
run_space (some r) = non_empty r.space_id

abbrev pub prefixed_first : Option String → Option String → Option String
prefixed_first (some s) later = some (add_prefix "spc" s)
prefixed_first none none = none
prefixed_first none (some s) = some (add_prefix "spc" s)

-- The space of the journal entry: the one given, else the first that the session touched, else
-- that of the first run that has one.
abbrev pub session_space : Option String → SessionRow → List RunRow → Option String
session_space (some given) session runs = some given
session_space none session runs =
    prefixed_first (first_space session.spaces_touched)
      (run_space (find (λ r. is_some (non_empty r.space_id)) runs))

abbrev pub cancel_requested : CancelSessionInput → (space_id session_bare : String) → SpaceEvent
cancel_requested input space_id session_bare = record {
  event_type = "mrmr.session.cancel_requested";
  space_id = space_id;
  session_id = add_prefix "ses" session_bare;
  run_id = none;
  actor_id = input.actor_id;
  token_id = input.token_id;
  event_data = end;
}

-- What the lifecycle of a run is behind the loop.
abbrev pub stopped_lifecycle : RunRow → RunLifecycle
stopped_lifecycle r = if is_stoppable r.lifecycle then cancelled else r.lifecycle

module _ {W : Type 0} (services : Services W) where
  abbrev pub journal_request : Option String → CancelSessionInput → (session_bare : String) → W → W
  journal_request none input session_bare w = w
  journal_request (some space_id) input session_bare w =
      services.append_space_journal (cancel_requested input space_id session_bare) w

  -- The loop over the runs, which stops those that are active; `at` is read for each run.
  abbrev pub stop_run : (W → String × W) → Hub W → RunRow → Hub W
  stop_run at hub r =
      let stopped =
        services.terminate_run_executors (prefixed_run r.run_id) "session cancelled" hub.world in
      let now = at stopped in
      if is_stoppable r.lifecycle
      then record {
        studio = update_run_lifecycle r.run_id cancelled (some now.0) hub.studio;
        world = now.1;
      }
      else hub

  unfoldable pub stop_runs : (W → String × W) → List RunRow → Hub W → Hub W
  stop_runs at runs hub = fold (stop_run at) hub runs

  abbrev pub cancel_session_found :
      Option SessionRow
      → (session_bare : String) → CancelSessionInput
      → Hub W
      → SessionResult × Hub W
  cancel_session_found none session_bare input hub =
      (SessionResult.session_refused "SESSION_NOT_FOUND" "Session not found", hub)
  cancel_session_found (some session) session_bare input hub =
      let now = services.now_iso hub.world in
      let marked = mark_session_cancel_requested session_bare now.0 hub.studio in
      let runs = list_runs_by_session session_bare marked in
      let space_id = non_empty (session_space input.space_id session runs) in
      let journaled = journal_request space_id input session_bare now.1 in
      let stopped =
        stop_runs (λ w. (now.0, w)) runs (record { studio = marked; world = journaled }) in
      let status = derive_session_status (map stopped_lifecycle runs) true in
      (
        SessionResult.session_ok (to_session_dto (with_status status session)),
        record {
          studio = update_session_status session_bare status stopped.studio;
          world = stopped.world;
        },
      )

  unfoldable pub cancel_session : CancelSessionInput → Hub W → SessionResult × Hub W
  cancel_session input hub =
      let session_bare = strip_prefix input.session_id in
      cancel_session_found (get_session session_bare hub.studio) session_bare input hub

  -- The timer of `cancelSession`.
  unfoldable pub cancel_session_timeout : (session_bare : String) → Hub W → Hub W
  cancel_session_timeout session_bare hub =
      let stopped = stop_runs services.now_iso (list_runs_by_session session_bare hub.studio) hub in
      record {
        studio = update_session_status session_bare session_cancelled stopped.studio;
        world = stopped.world;
      }
