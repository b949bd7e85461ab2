-- ===== src/Hub/Queue.antt =====
-- The store of tasks that executors poll: packages/hub-core/src/executors/queue-store.ts.
pub mod Tasks
pub mod Deliveries
pub mod Named
pub mod Once
pub mod Trace
pub mod Cancel
use murrmure.Prelude.{
  ℕ, ◌+◌, String, Bool, true, false, not, Option, none, some, List, [], ◌∷◌, ◌++◌, if◌then◌else◌,
  keep, leb, nat_eq, exists, get_or,
}
use murrmure.Dict.{Dict, lookup, insert, string_key}
use murrmure.Json.{Fields}

pub data TaskRecordStatus : Type 0 where
  offered completed failed : TaskRecordStatus

pub record ExecutorTaskOffer : Type 0 where
  pub task_id : String
  pub run_id : String
  pub step_id : String
  pub action_name : String
  pub space_id : String
  pub params : Fields
  pub artifacts_in : Option (List String)
  pub deadline_at : String

pub record QueuedTaskRecord : Type 0 where
  pub task_id : String
  pub executor_id : String
  pub offer : ExecutorTaskOffer
  pub status : TaskRecordStatus
  pub actor_id : String
  pub token_id : String
  pub action_name : String
  pub session_id : Option String
  pub idempotency_key : Option String
  pub completed_result : Option Fields
  pub error_code : Option String
  pub detail : Option String

-- A poll that waits: `wake` with its deadline, under an id of its own. It is settled exactly when
-- it is no longer listed.
pub record Waiter : Type 0 where
  pub waiter_id : ℕ
  pub deadline : ℕ

pub record PollStore : Type 0 where
  pub last_poll : Dict String String
  pub tasks : Dict String QueuedTaskRecord
  pub pending_by_executor : Dict String (List String)
  pub waiters : Dict String (List Waiter)

abbrev pub is_offered : QueuedTaskRecord → Bool
is_offered row = elim row.status [ offered ↦ true | _ ↦ false ]

-- `waiters.get(executor_id) ?? []`, and the queue of an executor.
abbrev pub waiters_of : String → PollStore → List Waiter
waiters_of executor_id s = get_or (lookup executor_id s.waiters) []

abbrev pub queue_of : String → PollStore → List String
queue_of executor_id s = get_or (lookup executor_id s.pending_by_executor) []

abbrev pub with_tasks : Dict String QueuedTaskRecord → PollStore → PollStore
with_tasks tasks s = record {
  last_poll = s.last_poll;
  tasks = tasks;
  pending_by_executor = s.pending_by_executor;
  waiters = s.waiters;
}

abbrev pub set_queue : String → List String → PollStore → PollStore
set_queue executor_id queue s = record {
  last_poll = s.last_poll;
  tasks = s.tasks;
  pending_by_executor = insert executor_id queue s.pending_by_executor;
  waiters = s.waiters;
}

abbrev pub set_waiters : String → List Waiter → PollStore → PollStore
set_waiters executor_id list s = record {
  last_poll = s.last_poll;
  tasks = s.tasks;
  pending_by_executor = s.pending_by_executor;
  waiters = insert executor_id list s.waiters;
}

unfoldable pub record_poll : (executor_id at : String) → PollStore → PollStore
record_poll executor_id at s = record {
  last_poll = insert executor_id at s.last_poll;
  tasks = s.tasks;
  pending_by_executor = s.pending_by_executor;
  waiters = s.waiters;
}

-- `row?.status === "offered"`.
abbrev pub offered_row : Option QueuedTaskRecord → Bool
offered_row none = false
offered_row (some row) = is_offered row

-- A round of the loop of `drain`, with what the others give.
abbrev pub split_step :
    Option QueuedTaskRecord
    → String
    → List ExecutorTaskOffer × List String
    → List ExecutorTaskOffer × List String
split_step none task_id rest = (rest.0, task_id ∷ rest.1)
split_step (some row) task_id rest =
    if is_offered row then (row.offer ∷ rest.0, rest.1) else (rest.0, task_id ∷ rest.1)

-- The loop of `drain`: the offers, and the ids that remain.
unfoldable pub split_queue :
    Dict String QueuedTaskRecord → List String → List ExecutorTaskOffer × List String
split_queue tasks [] = ([], [])
split_queue tasks (task_id ∷ queue) =
    split_step (lookup task_id tasks) task_id (split_queue tasks queue)

unfoldable pub drain : String → PollStore → List ExecutorTaskOffer × PollStore
drain executor_id s =
    let parts = split_queue s.tasks (queue_of executor_id s) in
    (parts.0, set_queue executor_id parts.1 s)

unfoldable pub remove_waiter : String → ℕ → PollStore → PollStore
remove_waiter executor_id id s =
    set_waiters executor_id (keep (λ w. not (nat_eq w.waiter_id id)) (waiters_of executor_id s)) s

abbrev pub is_waiting : ℕ → List Waiter → Bool
is_waiting id list = exists (λ w. nat_eq w.waiter_id id) list

-- What a poll that waits is resolved with.
pub record Delivery : Type 0 where
  pub receiver : ℕ
  pub offers : List ExecutorTaskOffer

abbrev pub wake_after :
    String → Waiter → (now : ℕ) → List ExecutorTaskOffer × PollStore → List Delivery × PollStore
wake_after executor_id w now (offer ∷ offers, s) = (
  record { receiver = w.waiter_id; offers = offer ∷ offers } ∷ [],
  remove_waiter executor_id w.waiter_id s,
)
wake_after executor_id w now ([], s) =
    if leb w.deadline now
    then (
      record { receiver = w.waiter_id; offers = [] } ∷ [],
      remove_waiter executor_id w.waiter_id s,
    )
    else ([], s)

-- `wake`: at once by `enqueue`, or later by its timer.
unfoldable pub wake : String → (now : ℕ) → Waiter → PollStore → List Delivery × PollStore
wake executor_id now w s =
    let after = wake_after executor_id w now (drain executor_id s) in
    if is_waiting w.waiter_id (waiters_of executor_id s) then after else ([], s)

unfoldable pub wake_all : String → (now : ℕ) → List Waiter → PollStore → List Delivery × PollStore
wake_all executor_id now [] s = ([], s)
wake_all executor_id now (w ∷ list) s =
    let first = wake executor_id now w s in
    let rest = wake_all executor_id now list first.1 in (first.0 ++ rest.0, rest.1)

unfoldable pub notify : String → (now : ℕ) → PollStore → List Delivery × PollStore
notify executor_id now s = wake_all executor_id now (waiters_of executor_id s) s

abbrev pub queued : QueuedTaskRecord → PollStore → PollStore
queued row s =
    set_queue row.executor_id (queue_of row.executor_id s ++ row.task_id ∷ [])
      (with_tasks (insert row.task_id row s.tasks) s)

unfoldable pub enqueue : QueuedTaskRecord → (now : ℕ) → PollStore → List Delivery × PollStore
enqueue row now s = notify row.executor_id now (queued row s)

-- A poll is answered at once, or it waits under this id.
pub data PollReply : Type 0 where
  immediate : List ExecutorTaskOffer → PollReply
  waits : PollReply

abbrev pub reply_after :
    String → Waiter → List ExecutorTaskOffer × PollStore → PollReply × PollStore
reply_after executor_id w (offer ∷ offers, s) = (PollReply.immediate (offer ∷ offers), s)
reply_after executor_id w ([], s) =
    (PollReply.waits, set_waiters executor_id (waiters_of executor_id s ++ w ∷ []) s)

-- `poll`, where `id` names the promise of a poll that waits.
unfoldable pub poll :
    (executor_id : String) (timeout_ms id now : ℕ) (now_iso : String)
    → PollStore
    → PollReply × PollStore
poll executor_id timeout_ms id now now_iso s =
    reply_after executor_id (record { waiter_id = id; deadline = now + timeout_ms })
      (drain executor_id (record_poll executor_id now_iso s))
