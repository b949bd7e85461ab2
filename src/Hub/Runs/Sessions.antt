-- ===== src/Hub/Runs/Sessions.antt =====
-- The sessions of the hub: packages/hub-core/src/session/index.ts, and the operations of
-- packages/hub-persistence/src/memory.ts that it uses.
use murrmure.Prelude.{
  String, Bool, true, false, Option, none, some, List, if◌then◌else◌, map, non_empty, is_some,
}
use murrmure.Dict.{lookup, insert, string_key}
use murrmure.Hub.Ids.{strip_prefix}
use murrmure.Hub.Runs.{
  SessionRow, SessionStatus, session_active, session_completed, session_failed, session_cancelled,
  partial_failure, Studio, bare_session_id, list_runs_by_session,
}
use murrmure.Hub.Runs.Status.{derive_session_status}

-- `getSession` of packages/hub-persistence/src/memory.ts.
abbrev pub get_session : String → Studio → Option SessionRow
get_session session_id s = lookup (bare_session_id session_id) s.sessions

abbrev pub set_session : String → SessionRow → Studio → Studio
set_session bare row s = record {
  runs = s.runs;
  sessions = insert bare row s.sessions;
  space_index = s.space_index;
  flow_index = s.flow_index;
}

abbrev pub with_spaces : List String → SessionRow → SessionRow
with_spaces spaces row = record {
  session_id = row.session_id;
  title = row.title;
  subject = row.subject;
  status = row.status;
  spaces_touched = spaces;
  actor_id = row.actor_id;
  cancel_requested_at = row.cancel_requested_at;
}

abbrev pub with_status : SessionStatus → SessionRow → SessionRow
with_status status row = record {
  session_id = row.session_id;
  title = row.title;
  subject = row.subject;
  status = status;
  spaces_touched = row.spaces_touched;
  actor_id = row.actor_id;
  cancel_requested_at = row.cancel_requested_at;
}

abbrev pub update_session : (SessionRow → SessionRow) → String → Option SessionRow → Studio → Studio
update_session change bare none s = s
update_session change bare (some row) s = set_session bare (change row) s

unfoldable pub update_session_spaces_touched : String → List String → Studio → Studio
update_session_spaces_touched session_id spaces s =
    update_session (with_spaces spaces) (bare_session_id session_id) (get_session session_id s) s

unfoldable pub update_session_status : String → SessionStatus → Studio → Studio
update_session_status session_id status s =
    update_session (with_status status) (bare_session_id session_id) (get_session session_id s) s

abbrev pub same_status : SessionStatus → SessionStatus → Bool
same_status session_active session_active = true
same_status session_completed session_completed = true
same_status session_failed session_failed = true
same_status session_cancelled session_cancelled = true
same_status partial_failure partial_failure = true
same_status _ _ = false

abbrev pub change_status : String → SessionStatus → SessionStatus → Studio → Studio
change_status bare before status s =
    if same_status status before then s else update_session_status bare status s

abbrev pub refresh_found : String → Option SessionRow → Studio → Studio
refresh_found bare none s = s
refresh_found bare (some session) s =
    change_status bare session.status
      (derive_session_status (map (λ r. r.lifecycle) (list_runs_by_session bare s))
        (is_some (non_empty session.cancel_requested_at)))
      s

unfoldable pub refresh_session_status : String → Studio → Studio
refresh_session_status session_id s =
    refresh_found (strip_prefix session_id) (get_session (strip_prefix session_id) s) s
