-- ===== src/Hub/Queue/Trace.antt =====
-- The whole life of the store of tasks: packages/hub-core/src/executors/queue-store.ts.
use murrmure.Prelude.{
  ℕ, ◌+◌, ◌≡◌, refl, sym, subst, ap, String, Option, List, [], ◌∷◌, ◌++◌, arith, get_or, ◌==◌,
  if◌then◌else◌, Bool-cases, inl, inr,
}
use murrmure.Prelude.Int.{ℤ}
use murrmure.Dict.{lookup, string_key}
use murrmure.Json.{Fields}
use murrmure.Hub.Queue.{
  QueuedTaskRecord, PollStore, Waiter, queue_of, record_poll, wake, enqueue, poll,
}
use murrmure.Hub.Queue.Tasks.{
  mark_completed, mark_failed, cancel_offered_for_run, list_offered_for_run,
  extend_offered_deadlines_for_run,
}
use murrmure.Hub.Queue.Named.{
  IsNamed, AllNamed, AllNamed-insert, Keeps, mark_completed-Keeps, mark_failed-Keeps,
  cancel_each-Keeps, extend-Keeps,
}
use murrmure.Hub.Queue.Once.{
  times, times-append, received_ids, answered_ids, waiting, counts, wake-waiting, enqueue-waiting,
  poll-waiting, wake-tasks, enqueue-tasks, poll-tasks,
}

abbrev empty : PollStore
empty = record { last_poll = []; tasks = []; pending_by_executor = []; waiters = [] }

module _ (e : String) where
  -- The ids that concern the executor e, of an operation on the executor k.
  abbrev pub mine : String → List String → List String
  mine k ids = if k == e then ids else []

  -- Everything that happens to the store, with the ids that were enqueued for the executor, and
  -- those of the offers that its polls received, from the empty store on. As `enqueueTaskOffer`
  -- makes it, an enqueued row has an offer for its own task.
  pub data Trace : (enqueued received : List String) → PollStore → Type 0 where
    empty_trace : Trace [] [] empty
    then_enqueue :
        {n d : List String} {s : PollStore}
        → Trace n d s
        → (row : QueuedTaskRecord) (now : ℕ) → IsNamed row
        → Trace
            (mine row.executor_id (row.task_id ∷ []) ++ n)
            (mine row.executor_id (received_ids (enqueue row now s).0) ++ d)
            (enqueue row now s).1
    then_poll :
        {n d : List String} {s : PollStore}
        → Trace n d s
        → (k : String) (timeout_ms id now : ℕ) (now_iso : String)
        → Trace n
            (mine k (answered_ids (poll k timeout_ms id now now_iso s).0) ++ d)
            (poll k timeout_ms id now now_iso s).1
    then_timer :
        {n d : List String} {s : PollStore}
        → Trace n d s
        → (k : String) (now : ℕ) (w : Waiter)
        → Trace n (mine k (received_ids (wake k now w s).0) ++ d) (wake k now w s).1
    then_record_poll :
        {n d : List String} {s : PollStore}
        → Trace n d s
        → (k at : String) → Trace n d (record_poll k at s)
    then_complete :
        {n d : List String} {s : PollStore}
        → Trace n d s
        → (task_id : String) (result : Option Fields)
        → Trace n d (mark_completed task_id result s).1
    then_fail :
        {n d : List String} {s : PollStore}
        → Trace n d s
        → (task_id : String) (error_code detail : Option String)
        → Trace n d (mark_failed task_id error_code detail s).1
    then_cancel :
        {n d : List String} {s : PollStore}
        → Trace n d s
        → (run_id error_code detail : String)
        → Trace n d (cancel_offered_for_run run_id error_code detail s).1
    then_extend :
        {n d : List String} {s : PollStore}
        → Trace n d s
        → (parse_date : String → Option ℕ) (to_iso : ℕ → String) (run_id : String) (extend_ms : ℤ)
        → Trace n d (extend_offered_deadlines_for_run parse_date to_iso run_id extend_ms s).1

  Trace-AllNamed : {n d : List String} {s : PollStore} → Trace n d s → AllNamed s.tasks
  unfolding record_poll cancel_offered_for_run
  Trace-AllNamed empty_trace = tt
  Trace-AllNamed (then_enqueue {n} {d} {s} t row now named) =
      subst AllNamed (sym (enqueue-tasks row now s))
        (AllNamed-insert row.task_id row s.tasks refl named (Trace-AllNamed t))
  Trace-AllNamed (then_poll {n} {d} {s} t k timeout_ms id now now_iso) =
      subst AllNamed (sym (poll-tasks k timeout_ms id now now_iso s)) (Trace-AllNamed t)
  Trace-AllNamed (then_timer {n} {d} {s} t k now w) =
      subst AllNamed (sym (wake-tasks k now w s)) (Trace-AllNamed t)
  Trace-AllNamed (then_record_poll t k at) = Trace-AllNamed t
  Trace-AllNamed (then_complete {n} {d} {s} t task_id result) =
      (mark_completed-Keeps task_id result s (Trace-AllNamed t)).names
  Trace-AllNamed (then_fail {n} {d} {s} t task_id error_code detail) =
      (mark_failed-Keeps task_id error_code detail s (Trace-AllNamed t)).names
  Trace-AllNamed (then_cancel {n} {d} {s} t run_id error_code detail) =
      (cancel_each-Keeps error_code detail (list_offered_for_run run_id s) s
        (Trace-AllNamed t)).names
  Trace-AllNamed (then_extend {n} {d} {s} t parse_date to_iso run_id extend_ms) =
      (extend-Keeps parse_date to_iso run_id extend_ms s (Trace-AllNamed t)).names

  module _ (task : String) where
    times-mine :
        (k : String) (ids rest : List String)
        → times task (mine k ids ++ rest) ≡ counts e task k (times task ids) + times task rest
    times-mine k ids rest = elim (Bool-cases (k == e)) [
      | inl y ↦ rw y (times-append task ids rest)
      | inr n ↦ rw n (omega arith)
    ]

    Keeps-waiting : {s t : PollStore} → Keeps s t → waiting e task t ≡ waiting e task s
    Keeps-waiting keeps = ap (λ m. times task (get_or (lookup e m) [])) keeps.queues

    -- Through every sequence of operations, each task id is as often among the offers that the
    -- polls of an executor received, and the ids left in its queue, as it was enqueued for the
    -- executor, when each enqueued row has an offer for its own task. So none is lost, and none is
    -- received more often than it was enqueued.
    pub Trace-received :
        {n d : List String} {s : PollStore}
        → Trace n d s
        → times task d + times task (queue_of e s) ≡ times task n
    unfolding record_poll cancel_offered_for_run lookup
    Trace-received empty_trace = refl
    Trace-received (then_enqueue {n} {d} {s} t row now named) = omega (
      arith,
      times-mine row.executor_id (row.task_id ∷ []) n,
      times-mine row.executor_id (received_ids (enqueue row now s).0) d,
      enqueue-waiting e task row now s named (Trace-AllNamed t),
      Trace-received t,
    )
    Trace-received (then_poll {n} {d} {s} t k timeout_ms id now now_iso) = omega (
      arith,
      times-mine k (answered_ids (poll k timeout_ms id now now_iso s).0) d,
      poll-waiting e task k timeout_ms id now now_iso s (Trace-AllNamed t),
      Trace-received t,
    )
    Trace-received (then_timer {n} {d} {s} t k now w) = omega (
      arith,
      times-mine k (received_ids (wake k now w s).0) d,
      wake-waiting e task k now w s (Trace-AllNamed t),
      Trace-received t,
    )
    Trace-received (then_record_poll t k at) = Trace-received t
    Trace-received (then_complete {n} {d} {s} t task_id result) = omega (
      arith,
      Keeps-waiting (mark_completed-Keeps task_id result s (Trace-AllNamed t)),
      Trace-received t,
    )
    Trace-received (then_fail {n} {d} {s} t task_id error_code detail) = omega (
      arith,
      Keeps-waiting (mark_failed-Keeps task_id error_code detail s (Trace-AllNamed t)),
      Trace-received t,
    )
    Trace-received (then_cancel {n} {d} {s} t run_id error_code detail) = omega (
      arith,
      Keeps-waiting (
          cancel_each-Keeps error_code detail (list_offered_for_run run_id s) s (Trace-AllNamed t)),
      Trace-received t,
    )
    Trace-received (then_extend {n} {d} {s} t parse_date to_iso run_id extend_ms) = omega (
      arith,
      Keeps-waiting (extend-Keeps parse_date to_iso run_id extend_ms s (Trace-AllNamed t)),
      Trace-received t,
    )
