-- ===== src/Hub/Queue/Named.antt =====
-- Tasks stand under their own ids, and offers have the ids of their tasks:
-- packages/hub-core/src/executors/queue-store.ts.
use murrmure.Prelude.{
  ℕ, suc, ◌+◌, ◌≡◌, refl, sym, ap, ◌∙◌, String, Bool, true, false, Option, none, some, List, [],
  ◌∷◌, arith, nat_eq, ◌==◌, eq_iff, Bool-cases, inl, inr, All, keep,
}
use murrmure.Prelude.Int.{ℤ, pos, negsuc}
use murrmure.Dict.{Dict, lookup, insert, values, string_key}
use murrmure.Json.{Fields}
use murrmure.Hub.Queue.{QueuedTaskRecord, TaskRecordStatus, PollStore}
use murrmure.Hub.Queue.Tasks.{
  mark_unless, mark_found, mark_completed, mark_failed, as_completed, as_failed, cancel_each,
  list_offered_for_run, with_deadline, extend_row, extend_each, extend_offered_deadlines_for_run,
  is_status,
}

-- The offer of the row is for the task of the row.
abbrev pub IsNamed : QueuedTaskRecord → Type 0
IsNamed row = row.offer.task_id ≡ row.task_id

abbrev pub IsNamedAt : String × QueuedTaskRecord → Type 0
IsNamedAt entry = (entry.1.task_id ≡ entry.0) × IsNamed entry.1

abbrev pub AllNamed : Dict String QueuedTaskRecord → Type 0
AllNamed tasks = All IsNamedAt tasks

pub AllNamed-insert :
    (task_id : String) (row : QueuedTaskRecord) (tasks : Dict String QueuedTaskRecord)
    → row.task_id ≡ task_id
    → IsNamed row
    → AllNamed tasks
    → AllNamed (insert task_id row tasks)
unfolding insert
AllNamed-insert task_id row [] own named all = ((own, named), tt)
AllNamed-insert task_id row ((j, r) ∷ tasks) own named all = elim (Bool-cases (j == task_id)) [
  | inl y ↦ rw y ((own ∙ sym ((eq_iff j task_id).0 y), named), all.1)
  | inr n ↦ rw n (all.0, AllNamed-insert task_id row tasks own named all.1)
]

pub AllNamed-lookup :
    (task_id : String) (tasks : Dict String QueuedTaskRecord) (row : QueuedTaskRecord)
    → AllNamed tasks
    → lookup task_id tasks ≡ some row
    → (row.task_id ≡ task_id) × IsNamed row
unfolding lookup
AllNamed-lookup task_id [] row all h = cc
AllNamed-lookup task_id ((j, r) ∷ tasks) row all h = elim (Bool-cases (j == task_id)) [
  | inl y ↦ here y (ground (arith, h, y))
  | inr n ↦ AllNamed-lookup task_id tasks row all.1 (ground (arith, h, n))
]
  where
    here : (j == task_id) ≡ true → some r ≡ some row → (row.task_id ≡ task_id) × IsNamed row
    here y same =
        let e : r ≡ row = ap (λ o. elim o [ none ↦ row | some x ↦ x ]) same in
        (
          ap (λ x. x.task_id) (sym e) ∙ all.0.0 ∙ (eq_iff j task_id).0 y,
          ap (λ x. x.offer.task_id) (sym e) ∙ all.0.1 ∙ ap (λ x. x.task_id) e,
        )

AllNamed-kept :
    (p : QueuedTaskRecord → Bool) (tasks : Dict String QueuedTaskRecord)
    → AllNamed tasks
    → All IsNamed (keep p (values tasks))
AllNamed-kept p [] all = tt
AllNamed-kept p ((j, r) ∷ tasks) all = elim (Bool-cases (p r)) [
  | inl y ↦ rw y (all.0.1, AllNamed-kept p tasks all.1)
  | inr n ↦ rw n (AllNamed-kept p tasks all.1)
]

-- The operations that only change tasks: the queues stay, and the names stay right.
pub record Keeps (s t : PollStore) : Type 0 where
  pub queues : t.pending_by_executor ≡ s.pending_by_executor
  pub names : AllNamed t.tasks

mark_found-Keeps :
    (status : TaskRecordStatus) (update : QueuedTaskRecord → QueuedTaskRecord) (task_id : String)
    (s : PollStore)
    → ((row : QueuedTaskRecord) → IsNamed row → IsNamed (update row))
    → ((row : QueuedTaskRecord) → (update row).task_id ≡ row.task_id)
    → AllNamed s.tasks
    → Keeps s (mark_found status update task_id (lookup task_id s.tasks) s).1
mark_found-Keeps status update task_id s still own all = found (lookup task_id s.tasks) refl
  where
    unless :
        (b : Bool) (row : QueuedTaskRecord)
        → row.task_id ≡ task_id
        → IsNamed row
        → Keeps s (mark_unless b row (update row) task_id s).1
    unless true row here named = record { queues = refl; names = all }
    unless false row here named = record {
      queues = refl;
      names = AllNamed-insert task_id (update row) s.tasks (own row ∙ here) (still row named) all;
    }

    found :
        (o : Option QueuedTaskRecord)
        → lookup task_id s.tasks ≡ o
        → Keeps s (mark_found status update task_id o s).1
    found none e = record { queues = refl; names = all }
    found (some row) e =
        let (here, named) = AllNamed-lookup task_id s.tasks row all e in
        unless (is_status row.status status) row here named

pub mark_completed-Keeps :
    (task_id : String) (result : Option Fields) (s : PollStore)
    → AllNamed s.tasks
    → Keeps s (mark_completed task_id result s).1
unfolding mark_completed
mark_completed-Keeps task_id result s all =
    mark_found-Keeps _ (as_completed result) task_id s (λ row named. named) (λ row. refl) all

pub mark_failed-Keeps :
    (task_id : String) (error_code detail : Option String) (s : PollStore)
    → AllNamed s.tasks
    → Keeps s (mark_failed task_id error_code detail s).1
unfolding mark_failed
mark_failed-Keeps task_id error_code detail s all =
    mark_found-Keeps _ (as_failed error_code detail) task_id s (λ row named. named) (λ row. refl)
      all

pub cancel_each-Keeps :
    (error_code detail : String) (rows : List QueuedTaskRecord) (s : PollStore)
    → AllNamed s.tasks
    → Keeps s (cancel_each error_code detail rows s).1
unfolding cancel_each
cancel_each-Keeps error_code detail [] s all = record { queues = refl; names = all }
cancel_each-Keeps error_code detail (row ∷ rows) s all =
    let first = mark_failed-Keeps row.task_id (some error_code) (some detail) s all in
    let rest =
      cancel_each-Keeps error_code detail rows
        (mark_failed row.task_id (some error_code) (some detail) s).1 first.names in
    record { queues = rest.queues ∙ first.queues; names = rest.names }

extend_each-Keeps :
    (parse_date : String → Option ℕ) (to_iso : ℕ → String) (extend_ms : ℕ)
    (rows : List QueuedTaskRecord) (count : ℕ) (s : PollStore)
    → All IsNamed rows
    → AllNamed s.tasks
    → Keeps s (extend_each parse_date to_iso extend_ms rows (count, s)).1
extend_each-Keeps parse_date to_iso extend_ms [] count s named all = record {
  queues = refl;
  names = all;
}
extend_each-Keeps parse_date to_iso extend_ms (row ∷ rows) count s named all =
    later (parse_date row.offer.deadline_at)
      (λ n t. extend_each-Keeps parse_date to_iso extend_ms rows n t named.1)
  where
    later :
        (o : Option ℕ)
        → ((n : ℕ) (t : PollStore)
            → AllNamed t.tasks
            → Keeps t (extend_each parse_date to_iso extend_ms rows (n, t)).1)
        → Keeps s
            (extend_each parse_date to_iso extend_ms rows
              (extend_row parse_date to_iso o extend_ms row (count, s))).1
    later none others = others count s all
    later (some current) others =
        let updated = with_deadline (to_iso (current + extend_ms)) row in
        let rest =
          others (suc count)
            (extend_row parse_date to_iso (some current) extend_ms row (count, s)).1
            (AllNamed-insert row.task_id updated s.tasks refl named.0 all) in
        record { queues = rest.queues; names = rest.names }

pub extend-Keeps :
    (parse_date : String → Option ℕ) (to_iso : ℕ → String) (run_id : String) (extend_ms : ℤ)
    (s : PollStore)
    → AllNamed s.tasks
    → Keeps s (extend_offered_deadlines_for_run parse_date to_iso run_id extend_ms s).1
unfolding extend_offered_deadlines_for_run list_offered_for_run
extend-Keeps parse_date to_iso run_id (negsuc n) s all = record { queues = refl; names = all }
extend-Keeps parse_date to_iso run_id (pos extend_ms) s all =
    elim (Bool-cases (nat_eq extend_ms 0)) [
      | inl y ↦ rw y (record { queues = refl; names = all })
      | inr n ↦ rw n (
          extend_each-Keeps parse_date to_iso extend_ms (list_offered_for_run run_id s) 0 s
            (AllNamed-kept _ s.tasks all) all)
    ]
