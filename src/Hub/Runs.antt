-- ===== src/Hub/Runs.antt =====
-- The runs of the hub and the sessions that hold them: the rows of
-- packages/hub-persistence/src/port.ts and the operations of packages/hub-persistence/src/memory.ts
-- that packages/hub-core/src/run uses.
pub mod Status
pub mod Lifecycle
pub mod Policies
pub mod Admission
pub mod Sessions
pub mod Service
pub mod Start
pub mod Guarded
pub mod Cancellation
pub mod Creation
pub mod Apply
pub mod Counting
pub mod Growth
pub mod Capacity
use murrmure.Prelude.{
  ℕ, String, Bool, true, false, ◌||◌, Option, none, some, List, [], ◌∷◌, if◌then◌else◌, ◌==◌, keep,
  exists, opt_str_eq, non_empty, get_or,
}
use murrmure.Dict.{Dict, lookup, insert, values, string_key}
use murrmure.Json.{Fields}
use murrmure.Hub.Ids.{after_prefix, bare_space_id}

pub data RunLifecycle : Type 0 where
  working input_required completed failed cancelled : RunLifecycle

abbrev pub same_lifecycle : RunLifecycle → RunLifecycle → Bool
same_lifecycle working working = true
same_lifecycle input_required input_required = true
same_lifecycle completed completed = true
same_lifecycle failed failed = true
same_lifecycle cancelled cancelled = true
same_lifecycle _ _ = false

pub data SessionStatus : Type 0 where
  session_active session_completed session_failed session_cancelled partial_failure : SessionStatus

-- Null and undefined are `none`.
pub record RunRow : Type 0 where
  pub run_id : String
  pub session_id : String
  pub space_id : Option String
  pub flow_id : Option String
  pub flow_digest : Option String
  pub lifecycle : RunLifecycle
  pub exec_context : Fields
  pub reference_run_ids : List String
  pub instance_id : Option String
  pub started_at : String
  pub ended_at : Option String

-- `created_by` is left out; nothing here reads it.
pub record SessionRow : Type 0 where
  pub session_id : String
  pub title : String
  pub subject : Option String
  pub status : SessionStatus
  pub spaces_touched : List String
  pub actor_id : String
  pub cancel_requested_at : Option String

-- ResolvedRunPolicy of packages/contracts/src/entities/handler.ts.
pub record ResolvedRunPolicy : Type 0 where
  pub flow : String
  pub max_concurrent_runs : ℕ
  pub origin_space_id : String
  pub flow_id : String
  pub flow_digest : String

-- The fields of a FlowIndexEntry that a start reads.
pub record FlowIndexEntry : Type 0 where
  pub flow_id : String
  pub origin_space_id : String
  pub digest : String

-- The parts of a SpaceIndexSnapshot that a start reads. A policy row is kept as the policy that
-- its JSON text encodes.
pub record SpaceIndexSnapshot : Type 0 where
  pub flows : List FlowIndexEntry
  pub run_policies : List ResolvedRunPolicy

pub record Studio : Type 0 where
  pub runs : Dict String RunRow
  pub sessions : Dict String SessionRow
  pub space_index : Dict String SpaceIndexSnapshot
  pub flow_index : Dict String FlowIndexEntry

-- `run_id.startsWith("run_") ? … : run_id.startsWith("ins_") ? … : run_id`.
abbrev pub bare_run_id : String → String
bare_run_id run_id =
    get_or (after_prefix "run_" run_id) (get_or (after_prefix "ins_" run_id) run_id)

abbrev pub bare_session_id : String → String
bare_session_id session_id = get_or (after_prefix "ses_" session_id) session_id

unfoldable pub insert_run : RunRow → Studio → Studio
insert_run row s = record {
  runs = insert row.run_id row s.runs;
  sessions = s.sessions;
  space_index = s.space_index;
  flow_index = s.flow_index;
}

unfoldable pub get_run : String → Studio → Option RunRow
get_run run_id s = lookup (bare_run_id run_id) s.runs

unfoldable pub list_runs_by_session : String → Studio → List RunRow
list_runs_by_session session_id s =
    keep (λ r. r.session_id == bare_session_id session_id) (values s.runs)

-- Without `limit`: only callers that are not modelled give one.
pub record RunFilter : Type 0 where
  pub space_id : Option String
  pub flow_id : Option String
  pub lifecycles : List RunLifecycle

abbrev pub in_space : Option String → RunRow → Bool
in_space none r = true
in_space (some space_id) r =
    opt_str_eq r.space_id (some (bare_space_id space_id)) || opt_str_eq r.space_id (some space_id)

abbrev pub of_flow : Option String → RunRow → Bool
of_flow none r = true
of_flow (some flow_id) r = opt_str_eq r.flow_id (some flow_id)

abbrev pub has_lifecycle : List RunLifecycle → RunRow → Bool
has_lifecycle [] r = true
has_lifecycle (l ∷ ls) r = exists (same_lifecycle r.lifecycle) (l ∷ ls)

-- `rows.sort`, which is stable, the later `started_at` first; `before a b` is
-- `a.localeCompare(b) < 0`.
unfoldable pub place : (String → String → Bool) → RunRow → List RunRow → List RunRow
place before r [] = r ∷ []
place before r (s ∷ rows) =
    let later = s ∷ place before r rows in
    if before r.started_at s.started_at then later else r ∷ s ∷ rows

unfoldable pub newest_first : (String → String → Bool) → List RunRow → List RunRow
newest_first before [] = []
newest_first before (r ∷ rows) = place before r (newest_first before rows)

unfoldable pub list_runs : (String → String → Bool) → RunFilter → Studio → List RunRow
list_runs before filter s = newest_first before (
    keep (has_lifecycle filter.lifecycles) (
      keep (of_flow (non_empty filter.flow_id))
        (keep (in_space (non_empty filter.space_id)) (values s.runs))))

abbrev pub ended : Option String → Option String → Option String
ended none before = before
ended (some at) before = some at

abbrev pub with_lifecycle : RunLifecycle → Option String → RunRow → RunRow
with_lifecycle lifecycle ended_at r = record {
  run_id = r.run_id;
  session_id = r.session_id;
  space_id = r.space_id;
  flow_id = r.flow_id;
  flow_digest = r.flow_digest;
  lifecycle = lifecycle;
  exec_context = r.exec_context;
  reference_run_ids = r.reference_run_ids;
  instance_id = r.instance_id;
  started_at = r.started_at;
  ended_at = ended ended_at r.ended_at;
}

abbrev pub with_runs : Dict String RunRow → Studio → Studio
with_runs runs s = record {
  runs = runs;
  sessions = s.sessions;
  space_index = s.space_index;
  flow_index = s.flow_index;
}

abbrev pub update_found : String → RunLifecycle → Option String → Option RunRow → Studio → Studio
update_found bare lifecycle ended_at none s = s
update_found bare lifecycle ended_at (some r) s =
    with_runs (insert bare (with_lifecycle lifecycle ended_at r) s.runs) s

unfoldable pub update_run_lifecycle : String → RunLifecycle → Option String → Studio → Studio
update_run_lifecycle run_id lifecycle ended_at s =
    update_found (bare_run_id run_id) lifecycle ended_at (lookup (bare_run_id run_id) s.runs) s
