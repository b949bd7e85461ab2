-- ===== src/Hub/Queue/Tasks.antt =====
-- The tasks of packages/hub-core/src/executors/queue-store.ts: their results, cancellation and
-- deadlines, and the executors that are known.
use murrmure.Prelude.{
  ℕ, suc, ◌+◌, String, Bool, true, false, ◌&&◌, Option, none, some, List, [], ◌∷◌, ◌++◌,
  if◌then◌else◌, keep, length, leb, nat_eq, ◌==◌,
}
use murrmure.Prelude.Int.{ℤ, pos, negsuc}
use murrmure.Dict.{Dict, lookup, insert, values, string_key}
use murrmure.Json.{Fields}
use murrmure.Hub.Sets.{distinct}
use murrmure.Hub.Ids.{prefixed_run}
use murrmure.Hub.Queue.{
  TaskRecordStatus, offered, completed, failed, QueuedTaskRecord, PollStore, is_offered,
  offered_row, queue_of, with_tasks,
}

abbrev pub last_poll_at : String → PollStore → Option String
last_poll_at executor_id s = lookup executor_id s.last_poll

-- `parse` is `Date.parse`, and `now` the clock in milliseconds; `now - parse(ts) <= worker_ttl_ms`.
abbrev pub seen_within : (String → ℕ) → (now worker_ttl_ms : ℕ) → Option String → Bool
seen_within parse now worker_ttl_ms none = false
seen_within parse now worker_ttl_ms (some ts) =
    if ts == "" then false else leb now (parse ts + worker_ttl_ms)

unfoldable pub is_reachable : (String → ℕ) → String → (now worker_ttl_ms : ℕ) → PollStore → Bool
is_reachable parse executor_id now worker_ttl_ms s =
    seen_within parse now worker_ttl_ms (lookup executor_id s.last_poll)

abbrev pub get_task : String → PollStore → Option QueuedTaskRecord
get_task task_id s = lookup task_id s.tasks

abbrev pub as_completed : Option Fields → QueuedTaskRecord → QueuedTaskRecord
as_completed result row = record {
  task_id = row.task_id;
  executor_id = row.executor_id;
  offer = row.offer;
  status = completed;
  actor_id = row.actor_id;
  token_id = row.token_id;
  action_name = row.action_name;
  session_id = row.session_id;
  idempotency_key = row.idempotency_key;
  completed_result = result;
  error_code = row.error_code;
  detail = row.detail;
}

abbrev pub as_failed : (error_code detail : Option String) → QueuedTaskRecord → QueuedTaskRecord
as_failed error_code detail row = record {
  task_id = row.task_id;
  executor_id = row.executor_id;
  offer = row.offer;
  status = failed;
  actor_id = row.actor_id;
  token_id = row.token_id;
  action_name = row.action_name;
  session_id = row.session_id;
  idempotency_key = row.idempotency_key;
  completed_result = row.completed_result;
  error_code = error_code;
  detail = detail;
}

abbrev pub is_status : TaskRecordStatus → TaskRecordStatus → Bool
is_status offered offered = true
is_status completed completed = true
is_status failed failed = true
is_status _ _ = false

-- A row that has the status already is returned as it is.
abbrev pub mark_unless :
    Bool
    → (row updated : QueuedTaskRecord) → String
    → PollStore
    → Option QueuedTaskRecord × PollStore
mark_unless true row updated task_id s = (some row, s)
mark_unless false row updated task_id s =
    (some updated, with_tasks (insert task_id updated s.tasks) s)

abbrev pub mark_found :
    TaskRecordStatus
    → (QueuedTaskRecord → QueuedTaskRecord)
    → String
    → Option QueuedTaskRecord
    → PollStore
    → Option QueuedTaskRecord × PollStore
mark_found status update task_id none s = (none, s)
mark_found status update task_id (some row) s =
    mark_unless (is_status row.status status) row (update row) task_id s

unfoldable pub mark_completed :
    String → Option Fields → PollStore → Option QueuedTaskRecord × PollStore
mark_completed task_id result s =
    mark_found completed (as_completed result) task_id (lookup task_id s.tasks) s

unfoldable pub mark_failed :
    String → (error_code detail : Option String) → PollStore → Option QueuedTaskRecord × PollStore
mark_failed task_id error_code detail s =
    mark_found failed (as_failed error_code detail) task_id (lookup task_id s.tasks) s

-- An offered task of the run.
abbrev pub is_offered_for : String → QueuedTaskRecord → Bool
is_offered_for run_id row = is_offered row && (row.offer.run_id == run_id)

unfoldable pub list_offered_for_run : String → PollStore → List QueuedTaskRecord
list_offered_for_run run_id s = keep (is_offered_for (prefixed_run run_id)) (values s.tasks)

abbrev pub push_some : Option QueuedTaskRecord → List QueuedTaskRecord → List QueuedTaskRecord
push_some none rows = rows
push_some (some row) rows = row ∷ rows

unfoldable pub cancel_each :
    (error_code detail : String)
    → List QueuedTaskRecord
    → PollStore
    → List QueuedTaskRecord × PollStore
cancel_each error_code detail [] s = ([], s)
cancel_each error_code detail (row ∷ rows) s =
    let marked = mark_failed row.task_id (some error_code) (some detail) s in
    let rest = cancel_each error_code detail rows marked.1 in (push_some marked.0 rest.0, rest.1)

unfoldable pub cancel_offered_for_run :
    (run_id error_code detail : String) → PollStore → List QueuedTaskRecord × PollStore
cancel_offered_for_run run_id error_code detail s =
    cancel_each error_code detail (list_offered_for_run run_id s) s

abbrev pub with_deadline : String → QueuedTaskRecord → QueuedTaskRecord
with_deadline deadline_at row = record {
  task_id = row.task_id;
  executor_id = row.executor_id;
  offer = record {
    task_id = row.offer.task_id;
    run_id = row.offer.run_id;
    step_id = row.offer.step_id;
    action_name = row.offer.action_name;
    space_id = row.offer.space_id;
    params = row.offer.params;
    artifacts_in = row.offer.artifacts_in;
    deadline_at = deadline_at;
  };
  status = row.status;
  actor_id = row.actor_id;
  token_id = row.token_id;
  action_name = row.action_name;
  session_id = row.session_id;
  idempotency_key = row.idempotency_key;
  completed_result = row.completed_result;
  error_code = row.error_code;
  detail = row.detail;
}

module _ (parse_date : String → Option ℕ) (to_iso : ℕ → String) where
  abbrev pub extend_row : Option ℕ → ℕ → QueuedTaskRecord → ℕ × PollStore → ℕ × PollStore
  extend_row none extend_ms row (count, s) = (count, s)
  extend_row (some current) extend_ms row (count, s) = (
    suc count,
    with_tasks (insert row.task_id (with_deadline (to_iso (current + extend_ms)) row) s.tasks) s,
  )

  abbrev pub extend_each : ℕ → List QueuedTaskRecord → ℕ × PollStore → ℕ × PollStore
  extend_each extend_ms [] done = done
  extend_each extend_ms (row ∷ rows) done =
      extend_each extend_ms rows (extend_row (parse_date row.offer.deadline_at) extend_ms row done)

  -- `parse_date` is none where `Date.parse` gives NaN, and `to_iso` is `toISOString`.
  unfoldable pub extend_offered_deadlines_for_run : String → ℤ → PollStore → ℕ × PollStore
  extend_offered_deadlines_for_run run_id (negsuc n) s = (0, s)
  extend_offered_deadlines_for_run run_id (pos extend_ms) s =
      if nat_eq extend_ms 0
      then (0, s)
      else extend_each extend_ms (list_offered_for_run run_id s) (0, s)

abbrev pub keys : {V : Type 0} → Dict String V → List String
keys [] = []
keys ((k, v) ∷ m) = k ∷ keys m

unfoldable pub list_executor_ids : PollStore → List String
list_executor_ids s = distinct (keys s.last_poll ++ keys s.pending_by_executor)

abbrev pub offered_in : Dict String QueuedTaskRecord → String → Bool
offered_in tasks task_id = offered_row (lookup task_id tasks)

unfoldable pub pending_count : String → PollStore → ℕ
pending_count executor_id s = length (keep (offered_in s.tasks) (queue_of executor_id s))
