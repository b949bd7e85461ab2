-- ===== src/Samples/Hub.antt =====
-- The theorems on run capacity, grants, the policy port and the task store, at sample values.
use murrmure.Prelude.{
  ◌+◌, ◌≡◌, ◌≢◌, refl, sym, ap, ◌∙◌, eq_iff, Bool-cases, inl, inr, String, true, false, none, some,
  [], ◌∷◌, ◌==◌, if◌then◌else◌, exists, List, get_or,
}
use murrmure.Dict.{Dict, lookup, insert, string_key}
use murrmure.Json.{end}
use murrmure.Contracts.Commands.{CommandKind, event_append, state_transition}
use murrmure.Hub.Grants.{
  map_v1_scopes_to_capabilities, is_inherited, resolve_effective_capabilities, scope_capabilities,
  has_capability,
}
use murrmure.Hub.Grants.Gives.{gives}
use murrmure.Hub.Grants.Laws.{map_v1_scopes_to_capabilities-gives}
use murrmure.Hub.Policy.{
  TokenRow, active, evaluate, allow, out_of_scope, is_human_only, is_other_harness,
  required_capability,
}
use murrmure.Hub.Policy.Permits.{permits, evaluate-permits}
use murrmure.Hub.Policy.Gate.{context, permits_command, Served, authorize-permits}
use murrmure.Hub.Queue.{
  QueuedTaskRecord, offered, PollStore, enqueue, poll, queue_of, notify, wake_all, record_poll,
  drain, split_queue,
}
use murrmure.Hub.Ids.{after_prefix, prefixed_run}
use murrmure.Hub.Sets.{has, add}
use murrmure.Samples.{ada, sample_ports, submit_command}
use murrmure.Kernel.World.{Ports, initial_world}
use murrmure.Hub.Queue.Tasks.{
  as_failed, mark_failed, cancel_each, list_offered_for_run, is_offered_for, cancel_offered_for_run,
}
use murrmure.Hub.Queue.Cancel.{IsKeyed, cancel_offered_for_run-none}
use murrmure.Hub.Queue.Once.{times}
use murrmure.Hub.Queue.Trace.{Trace, Trace-received}

map_v1_scopes_to_capabilities-gives_example :
    (effective : List String) × (map_v1_scopes_to_capabilities
        ("blob:read" ∷ "state:transition" ∷ [])
      ≡ some effective)
    × ((c : String)
        → has c effective ≡ exists (λ scope. gives scope c) ("blob:read" ∷ "state:transition" ∷ []))
unfolding is_inherited
map_v1_scopes_to_capabilities-gives_example =
    map_v1_scopes_to_capabilities-gives ("blob:read" ∷ "state:transition" ∷ []) refl

abbrev task : String → QueuedTaskRecord
task task_id = record {
  task_id = task_id;
  executor_id = "worker";
  offer = record {
    task_id = task_id;
    run_id = "run_1";
    step_id = "s";
    action_name = "build";
    space_id = "spc_dev";
    params = end;
    artifacts_in = none;
    deadline_at = "t";
  };
  status = offered;
  actor_id = "ada";
  token_id = "tok_1";
  action_name = "build";
  session_id = none;
  idempotency_key = none;
  completed_result = none;
  error_code = none;
  detail = none;
}

-- Two tasks, and a poll between them.
abbrev empty_store : PollStore
empty_store = record { last_poll = []; tasks = []; pending_by_executor = []; waiters = [] }

abbrev one_task : PollStore
one_task = (enqueue (task "t1") 5 empty_store).1

abbrev polled : PollStore
polled = (poll "worker" 100 1 6 "now" one_task).1

abbrev two_tasks : PollStore
two_tasks = (enqueue (task "t2") 7 polled).1

-- The poll received the first task, and the second one waits.
one_received : Trace "worker" ("t2" ∷ "t1" ∷ []) ("t1" ∷ []) two_tasks
unfolding enqueue poll notify drain wake_all split_queue lookup record_poll insert
one_received =
    Trace.then_enqueue
      (Trace.then_poll (Trace.then_enqueue Trace.empty_trace (task "t1") 5 refl) "worker" 100 1 6
        "now")
      (task "t2") 7 refl

Trace-received_example :
    times "t1" ("t1" ∷ []) + times "t1" (queue_of "worker" two_tasks)
    ≡ times "t1" ("t2" ∷ "t1" ∷ [])
Trace-received_example = Trace-received "worker" "t1" one_received

one_IsKeyed : IsKeyed (("t1", task "t1") ∷ [])
unfolding lookup
one_IsKeyed t row h = elim (Bool-cases ("t1" == t)) [
  | inl y ↦
      ap (λ r. r.task_id)
        (sym (some_row (sym (ap (λ b. if b then some (task "t1") else none) y) ∙ h)))
      ∙ (eq_iff "t1" t).0 y
  | inr n ↦ absurd (no_row (sym (ap (λ b. if b then some (task "t1") else none) n) ∙ h))
]
  where
    some_row : some (task "t1") ≡ some row → task "t1" ≡ row
    some_row e = ap (λ o. elim o [ none ↦ row | some r ↦ r ]) e

    no_row : none ≢ some row
    no_row e = cc

abbrev stored : PollStore
stored = record {
  last_poll = [];
  tasks = ("t1", task "t1") ∷ [];
  pending_by_executor = ("worker", "t1" ∷ []) ∷ [];
  waiters = [];
}

stored_failed :
    lookup "t1" (cancel_offered_for_run "1" "RUN_CANCELLED" "cancelled" stored).1.tasks
    ≡ some (as_failed (some "RUN_CANCELLED") (some "cancelled") (task "t1"))
unfolding cancel_offered_for_run list_offered_for_run cancel_each mark_failed lookup insert
    after_prefix
stored_failed = refl

cancel_offered_for_run-none_example :
    is_offered_for
      (prefixed_run "1")
      (as_failed (some "RUN_CANCELLED") (some "cancelled") (task "t1"))
    ≡ false
cancel_offered_for_run-none_example =
    cancel_offered_for_run-none "1" "RUN_CANCELLED" "cancelled" stored one_IsKeyed "t1"
      (as_failed (some "RUN_CANCELLED") (some "cancelled") (task "t1")) stored_failed

-- A token of the space that may only emit events.
abbrev emitter : TokenRow
emitter = record {
  token_id = "key";
  space_id = "space";
  scopes = "event:emit" ∷ [];
  capabilities = none;
  harness_id = none;
  status = active;
}

abbrev tokens : Dict String TokenRow
tokens = ("key", emitter) ∷ []

abbrev append_note : CommandKind
append_note = event_append (record { aggregate_id = "i"; event_type = "note"; payload = none })

emitter_allowed : evaluate tokens (context (ada "c1") append_note) ≡ some allow
unfolding evaluate lookup out_of_scope is_human_only is_other_harness resolve_effective_capabilities
    map_v1_scopes_to_capabilities scope_capabilities is_inherited add required_capability
    has_capability
emitter_allowed = refl

evaluate-permits_example :
    true ≡ permits (lookup "key" tokens) (context (ada "c1") append_note) (some "event:emit")
evaluate-permits_example =
    evaluate-permits tokens (context (ada "c1") append_note) allow emitter_allowed

-- A transition, which the token does not permit.
abbrev submit_note : CommandKind
submit_note = state_transition submit_command

abbrev emit_only : Ports
emit_only = record sample_ports {
  evaluate_policy = λ p kind.
      get_or (evaluate tokens (record { provenance = p; command_kind = kind; payload = none }))
        allow;
}

emitter_denied :
    evaluate tokens (context (ada "c1") submit_note)
    ≡ some (emit_only.evaluate_policy (ada "c1") "state.transition")
unfolding evaluate lookup out_of_scope is_human_only is_other_harness resolve_effective_capabilities
    map_v1_scopes_to_capabilities scope_capabilities is_inherited add required_capability
    has_capability
emitter_denied = refl

authorize-permits_example :
    Served emit_only tokens
      (permits_command tokens (ada "c1") submit_note)
      submit_note
      (ada "c1")
      initial_world
authorize-permits_example =
    authorize-permits emit_only tokens submit_note (ada "c1") initial_world emitter_denied

not_permitted : permits_command tokens (ada "c1") submit_note ≡ false
unfolding lookup scope_capabilities is_inherited
not_permitted = refl
