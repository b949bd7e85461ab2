-- ===== src/Hub/Queue/Once.antt =====
-- How often a task is received, and is left in a queue: packages/hub-core/src/executors/queue-store.ts.
use murrmure.Prelude.{
  ℕ, suc, ◌+◌, ◌≡◌, refl, sym, subst, ap, ◌∙◌, String, Bool, true, false, some, List, [], ◌∷◌, ◌++◌,
  if◌then◌else◌, arith, leb, get_or, ◌==◌, eq_iff, Bool-cases, Option-cases, inl, inr, map,
}
use murrmure.Dict.{Dict, lookup, insert, lookup-insert, string_key}
use murrmure.Hub.Queue.{
  QueuedTaskRecord, ExecutorTaskOffer, PollStore, Waiter, Delivery, PollReply, is_offered,
  waiters_of, queue_of, with_tasks, set_queue, record_poll, split_queue, drain, remove_waiter,
  is_waiting, wake_after, wake, wake_all, notify, queued, enqueue, reply_after, poll,
}
use murrmure.Hub.Queue.Named.{AllNamed, AllNamed-lookup, AllNamed-insert, IsNamed}

-- How often a task is in a list.
abbrev pub times : String → List String → ℕ
times t [] = 0
times t (x ∷ xs) = let rest = times t xs in if x == t then suc rest else rest

pub times-append : (t : String) (xs ys : List String) → times t (xs ++ ys) ≡ times t xs + times t ys
times-append t [] ys = omega arith
times-append t (x ∷ xs) ys = ground (arith, times-append t xs ys)

-- The tasks of offers, and of deliveries.
abbrev pub offered_ids : List ExecutorTaskOffer → List String
offered_ids offers = map (λ o. o.task_id) offers

abbrev pub received_ids : List Delivery → List String
received_ids [] = []
received_ids (d ∷ ds) = offered_ids d.offers ++ received_ids ds

-- The ids that a poll is answered with at once.
abbrev pub answered_ids : PollReply → List String
answered_ids (PollReply.immediate offers) = offered_ids offers
answered_ids PollReply.waits = []

split_queue-times :
    (t : String) (tasks : Dict String QueuedTaskRecord) (queue : List String)
    → AllNamed tasks
    → times t (offered_ids (split_queue tasks queue).0) + times t (split_queue tasks queue).1
      ≡ times t queue
unfolding split_queue
split_queue-times t tasks [] all = omega arith
split_queue-times t tasks (x ∷ queue) all =
    let rest = split_queue-times t tasks queue all in
    elim (Option-cases (lookup x tasks)) [
      | inl e ↦ rw e (ground (arith, rest))
      | inr (row, e) ↦ elim (Bool-cases (is_offered row)) [
        | inl y ↦
            let (own, named) = AllNamed-lookup x tasks row all e in
            rw (e, y) (rw (named ∙ own) (ground (arith, rest)))
        | inr n ↦ rw (e, n) (ground (arith, rest))
      ]
    ]

-- Waking and polling leave the tasks alone.
pub wake-tasks :
    (k : String) (now : ℕ) (w : Waiter) (s : PollStore) → (wake k now w s).1.tasks ≡ s.tasks
unfolding wake drain remove_waiter
wake-tasks k now w s = elim (Bool-cases (is_waiting w.waiter_id (waiters_of k s))) [
  | inl y ↦ rw y (woken (drain k s) refl)
  | inr n ↦ rw n refl
]
  where
    woken :
        (r : List ExecutorTaskOffer × PollStore)
        → r.1.tasks ≡ s.tasks
        → (wake_after k w now r).1.tasks ≡ s.tasks
    woken (offer ∷ offers, u) h = h
    woken ([], u) h = elim (Bool-cases (leb w.deadline now)) [ inl y ↦ rw y h | inr n ↦ rw n h ]

wake_all-tasks :
    (k : String) (now : ℕ) (list : List Waiter) (s : PollStore)
    → (wake_all k now list s).1.tasks ≡ s.tasks
unfolding wake_all
wake_all-tasks k now [] s = refl
wake_all-tasks k now (w ∷ list) s =
    wake_all-tasks k now list (wake k now w s).1 ∙ wake-tasks k now w s

pub enqueue-tasks :
    (row : QueuedTaskRecord) (now : ℕ) (s : PollStore)
    → (enqueue row now s).1.tasks ≡ insert row.task_id row s.tasks
unfolding enqueue notify
enqueue-tasks row now s =
    wake_all-tasks row.executor_id now (waiters_of row.executor_id (queued row s)) (queued row s)

pub poll-tasks :
    (k : String) (timeout_ms id now : ℕ) (now_iso : String) (s : PollStore)
    → (poll k timeout_ms id now now_iso s).1.tasks ≡ s.tasks
unfolding poll record_poll drain
poll-tasks k timeout_ms id now now_iso s = replied (drain k (record_poll k now_iso s)) refl
  where
    replied :
        (r : List ExecutorTaskOffer × PollStore)
        → r.1.tasks ≡ s.tasks
        → (reply_after k (record { waiter_id = id; deadline = now + timeout_ms }) r).1.tasks
          ≡ s.tasks
    replied (offer ∷ offers, u) h = h
    replied ([], u) h = h

module _ (e t : String) where
  -- How often the task is in the queue of the executor e, and in deliveries.
  abbrev pub waiting : PollStore → ℕ
  waiting s = times t (queue_of e s)

  abbrev pub total : List Delivery → ℕ
  total ds = times t (received_ids ds)

  abbrev pub answered : PollReply → ℕ
  answered reply = times t (answered_ids reply)

  total-append : (ds es : List Delivery) → total (ds ++ es) ≡ total ds + total es
  total-append [] es = omega arith
  total-append (d ∷ ds) es = omega (
    arith,
    times-append t (offered_ids d.offers) (received_ids (ds ++ es)),
    times-append t (offered_ids d.offers) (received_ids ds),
    total-append ds es,
  )

  -- A number that counts when the executor is e.
  abbrev pub counts : String → ℕ → ℕ
  counts k n = if k == e then n else 0

  waiting-set_queue :
      (k : String) (queue : List String) (s : PollStore)
      → waiting (set_queue k queue s) ≡ (if k == e then times t queue else waiting s)
  waiting-set_queue k queue s =
      ap (λ o. times t (get_or o [])) (lookup-insert k e queue s.pending_by_executor)
      ∙ choose (k == e)
    where
      choose :
          (b : Bool)
          → times t (get_or (if b then some queue else lookup e s.pending_by_executor) [])
            ≡ (if b then times t queue else waiting s)
      choose true = refl
      choose false = refl

  -- A new queue of an executor, and how much longer or shorter it is.
  counts-set_queue :
      (k : String) (queue : List String) (n m : ℕ) (s : PollStore)
      → n + times t queue ≡ m + times t (queue_of k s)
      → counts k n + waiting (set_queue k queue s) ≡ counts k m + waiting s
  counts-set_queue k queue n m s h = elim (Bool-cases (k == e)) [
    | inl y ↦
        let same = ap (λ x. times t (queue_of x s)) ((eq_iff k e).0 y) in
        let after =
          waiting-set_queue k queue s ∙ ap (λ b. if b then times t queue else waiting s) y in
        rw y (omega (arith, after, same, h))
    | inr other ↦
        let after =
          waiting-set_queue k queue s ∙ ap (λ b. if b then times t queue else waiting s) other in
        rw other (omega (arith, after))
  ]

  counts-zero : (k : String) → counts k 0 ≡ 0
  counts-zero k = ground arith

  counts_add : (k : String) (n m : ℕ) → counts k (n + m) ≡ counts k n + counts k m
  counts_add k n m = ground arith

  drain-waiting :
      (k : String) (s : PollStore)
      → AllNamed s.tasks
      → counts k (times t (offered_ids (drain k s).0)) + waiting (drain k s).1 ≡ waiting s
  unfolding drain
  drain-waiting k s all =
      counts-set_queue k (split_queue s.tasks (queue_of k s)).1
        (times t (offered_ids (split_queue s.tasks (queue_of k s)).0)) 0 s
        (omega (arith, split_queue-times t s.tasks (queue_of k s) all))
      ∙ omega (arith, counts-zero k)

  pub wake-waiting :
      (k : String) (now : ℕ) (w : Waiter) (s : PollStore)
      → AllNamed s.tasks
      → counts k (total (wake k now w s).0) + waiting (wake k now w s).1 ≡ waiting s
  unfolding wake remove_waiter
  wake-waiting k now w s all = elim (Bool-cases (is_waiting w.waiter_id (waiters_of k s))) [
    | inl y ↦ rw y (woken (drain k s) (drain-waiting k s all))
    | inr n ↦ rw n (omega (arith, counts-zero k))
  ]
    where
      twice : (xs : List String) → times t (xs ++ []) ≡ times t xs
      twice xs = omega (arith, times-append t xs [])

      woken :
          (r : List ExecutorTaskOffer × PollStore)
          → counts k (times t (offered_ids r.0)) + waiting r.1 ≡ waiting s
          → counts k (total (wake_after k w now r).0) + waiting (wake_after k w now r).1 ≡ waiting s
      woken (offer ∷ offers, u) h =
          ap (λ n. counts k n + waiting u) (twice (offered_ids (offer ∷ offers))) ∙ h
      woken ([], u) h = elim (Bool-cases (leb w.deadline now)) [ inl y ↦ rw y h | inr n ↦ rw n h ]

  wake_all-waiting :
      (k : String) (now : ℕ) (list : List Waiter) (s : PollStore)
      → AllNamed s.tasks
      → counts k (total (wake_all k now list s).0) + waiting (wake_all k now list s).1 ≡ waiting s
  unfolding wake_all
  wake_all-waiting k now [] s all = omega (arith, counts-zero k)
  wake_all-waiting k now (w ∷ list) s all =
      let first = wake k now w s in
      let rest = wake_all k now list first.1 in
      omega (
        arith,
        ap (counts k) (total-append first.0 rest.0),
        counts_add k (total first.0) (total rest.0),
        wake-waiting k now w s all,
        wake_all-waiting k now list first.1 (subst AllNamed (sym (wake-tasks k now w s)) all),
      )

  pub enqueue-waiting :
      (row : QueuedTaskRecord) (now : ℕ) (s : PollStore)
      → IsNamed row
      → AllNamed s.tasks
      → counts row.executor_id (total (enqueue row now s).0) + waiting (enqueue row now s).1
        ≡ counts row.executor_id (times t (row.task_id ∷ [])) + waiting s
  unfolding enqueue notify
  enqueue-waiting row now s named all =
      let k = row.executor_id in
      let longer =
        counts-set_queue k (queue_of k s ++ row.task_id ∷ []) 0 (times t (row.task_id ∷ []))
          (with_tasks (insert row.task_id row s.tasks) s)
          (omega (arith, times-append t (queue_of k s) (row.task_id ∷ []))) in
      wake_all-waiting k now (waiters_of k (queued row s)) (queued row s)
        (AllNamed-insert row.task_id row s.tasks refl named all)
      ∙ omega (arith, longer, counts-zero k)

  pub poll-waiting :
      (k : String) (timeout_ms id now : ℕ) (now_iso : String) (s : PollStore)
      → AllNamed s.tasks
      → counts k (answered (poll k timeout_ms id now now_iso s).0)
          + waiting (poll k timeout_ms id now now_iso s).1
        ≡ waiting s
  unfolding poll record_poll
  poll-waiting k timeout_ms id now now_iso s all =
      replied (drain k (record_poll k now_iso s)) (drain-waiting k (record_poll k now_iso s) all)
    where
      w : Waiter
      w = record { waiter_id = id; deadline = now + timeout_ms }

      replied :
          (r : List ExecutorTaskOffer × PollStore)
          → counts k (times t (offered_ids r.0)) + waiting r.1 ≡ waiting s
          → counts k (answered (reply_after k w r).0) + waiting (reply_after k w r).1 ≡ waiting s
      replied (offer ∷ offers, u) h = h
      replied ([], u) h = h
