-- ===== src/Hub/Queue/Deliveries.antt =====
-- What a drain delivers and what it leaves: packages/hub-core/src/executors/queue-store.ts.
use murrmure.Prelude.{
  suc, ◌+◌, ◌≡◌, refl, ap, ◌∙◌, String, Bool, not, List, [], ◌∷◌, arith, keep, length, get_or,
  Bool-cases, Option-cases, inl, inr,
}
use murrmure.Dict.{Dict, lookup, lookup-insert_self, string_key}
use murrmure.Hub.Queue.{QueuedTaskRecord, PollStore, is_offered, queue_of, split_queue, drain}
use murrmure.Hub.Queue.Tasks.{offered_in, pending_count}

pub split_queue-keep :
    (tasks : Dict String QueuedTaskRecord) (queue : List String)
    → ((split_queue tasks queue).1 ≡ keep (λ t. not (offered_in tasks t)) queue)
      × (length (split_queue tasks queue).0 ≡ length (keep (offered_in tasks) queue))
unfolding split_queue
split_queue-keep tasks [] = (refl, refl)
split_queue-keep tasks (t ∷ queue) =
    let (left, counted) = split_queue-keep tasks queue in
    elim (Option-cases (lookup t tasks)) [
      | inl e ↦ rw e (ap (λ l. t ∷ l) left, counted)
      | inr (row, e) ↦ elim (Bool-cases (is_offered row)) [
        | inl y ↦ rw (e, y) (left, ap suc counted)
        | inr n ↦ rw (e, n) (ap (λ l. t ∷ l) left, counted)
      ]
    ]

pub keep-complement :
    (p : String → Bool) (xs : List String)
    → (length (keep p xs) + length (keep (λ x. not (p x)) xs) ≡ length xs)
      × (keep p (keep (λ x. not (p x)) xs) ≡ [])
keep-complement p [] = (refl, refl)
keep-complement p (x ∷ xs) =
    let (counted, none_left) = keep-complement p xs in
    elim (Bool-cases (p x)) [
      | inl y ↦ rw y (omega (arith, counted), none_left)
      | inr n ↦ rw n (omega (arith, counted), rw n none_left)
    ]

-- The number of pending tasks of an executor is the number of offers of the next drain, and after
-- a drain none is pending.
pub pending_count-drain :
    (executor_id : String) (s : PollStore)
    → (length (drain executor_id s).0 ≡ pending_count executor_id s)
      × (pending_count executor_id (drain executor_id s).1 ≡ 0)
unfolding drain pending_count
pending_count-drain executor_id s =
    let queue = queue_of executor_id s in
    let (left, counted) = split_queue-keep s.tasks queue in
    (
      counted,
      ap (λ q. length (keep (offered_in s.tasks) (get_or q [])))
            (lookup-insert_self executor_id (split_queue s.tasks queue).1 s.pending_by_executor)
          ∙ ap (λ q. length (keep (offered_in s.tasks) q)) left
          ∙ ap length (keep-complement (offered_in s.tasks) queue).1,
    )
