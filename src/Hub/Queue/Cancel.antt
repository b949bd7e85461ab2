-- ===== src/Hub/Queue/Cancel.antt =====
-- What cancelling a run does to its tasks: packages/hub-core/src/executors/queue-store.ts.
use murrmure.Prelude.{
  ◌≡◌, ◌≢◌, ◌⊎◌, refl, sym, ap, ◌∙◌, String, Bool, true, false, ◌&&◌, Option, none, some, List, [],
  ◌∷◌, if◌then◌else◌, arith, keep, map, ◌==◌, eq_iff, eq_refl, Bool-cases, inl, inr,
}
use murrmure.Dict.{Dict, lookup, values, lookup-insert, lookup-insert_self, string_key}
use murrmure.Hub.Sets.{has}
use murrmure.Hub.Ids.{prefixed_run}
use murrmure.Hub.Queue.{QueuedTaskRecord, offered, completed, failed, PollStore, is_offered}
use murrmure.Hub.Queue.Tasks.{
  as_failed, is_status, mark_unless, mark_found, mark_failed, is_offered_for, list_offered_for_run,
  cancel_each, cancel_offered_for_run,
}

-- Each task is stored under its own id.
abbrev pub IsKeyed : Dict String QueuedTaskRecord → Type 0
IsKeyed tasks =
    (task_id : String) (row : QueuedTaskRecord)
    → lookup task_id tasks ≡ some row
    → row.task_id ≡ task_id

some_inj : {a b : QueuedTaskRecord} → some a ≡ some b → a ≡ b
some_inj {a} h = ap (λ o. elim o [ none ↦ a | some b ↦ b ]) h

listed :
    (p : QueuedTaskRecord → Bool) (t : String) (row : QueuedTaskRecord)
    (m : Dict String QueuedTaskRecord)
    → lookup t m ≡ some row
    → p row ≡ true
    → has row.task_id (map (λ r. r.task_id) (keep p (values m))) ≡ true
unfolding lookup
listed p t row [] h y = cc
listed p t row ((k, r) ∷ m) h y = elim (Bool-cases (k == t)) [
  | inl e ↦
      let same = some_inj (sym (ap (λ b. if b then some r else lookup t m) e) ∙ h) in
      rw (ap p same ∙ y) (ground (arith, eq_refl row.task_id, ap (λ q. q.task_id) same))
  | inr n ↦
      let later = listed p t row m (sym (ap (λ b. if b then some r else lookup t m) n) ∙ h) y in
      elim (Bool-cases (p r)) [ inl z ↦ rw z (ground (arith, later)) | inr z ↦ rw z later ]
]

module _ (error_code detail : String) where
  abbrev update : QueuedTaskRecord → QueuedTaskRecord
  update row = as_failed (some error_code) (some detail) row

  failed-not_offered :
      (row : QueuedTaskRecord) → is_status row.status failed ≡ true → is_offered row ≡ false
  failed-not_offered row h =
      elim row.status
          as (λ st.
            is_status st failed ≡ true
            → (elim st as (λ _. Bool) [ offered ↦ true | completed ↦ false | failed ↦ false ])
              ≡ false) [ offered ↦ λ e. cc | completed ↦ λ e. refl | failed ↦ λ e. refl ]
        h

  -- The task that is marked is not offered behind it.
  mark_failed_self :
      (t : String) (row : QueuedTaskRecord) (s : PollStore)
      → lookup t (mark_failed t (some error_code) (some detail) s).1.tasks ≡ some row
      → is_offered row ≡ false
  unfolding mark_failed
  mark_failed_self t row s = found (lookup t s.tasks) refl
    where
      found :
          (o : Option QueuedTaskRecord)
          → lookup t s.tasks ≡ o
          → lookup t (mark_found failed (as_failed (some error_code) (some detail)) t o s).1.tasks
            ≡ some row
          → is_offered row ≡ false
      found none e h = cc
      found (some r) e h = marked (is_status r.status failed) refl h
        where
          marked :
              (b : Bool)
              → is_status r.status failed ≡ b
              → lookup t (mark_unless b r (update r) t s).1.tasks ≡ some row
              → is_offered row ≡ false
          marked true y g = sym (ap is_offered (some_inj (sym e ∙ g))) ∙ failed-not_offered r y
          marked false n g =
              sym (ap is_offered (some_inj (sym (lookup-insert_self t (update r) s.tasks) ∙ g)))

  mark_failed-other :
      (k t : String) (s : PollStore)
      → (k == t) ≡ false
      → lookup t (mark_failed k (some error_code) (some detail) s).1.tasks ≡ lookup t s.tasks
  unfolding mark_failed
  mark_failed-other k t s n = found (lookup k s.tasks)
    where
      found :
          (o : Option QueuedTaskRecord)
          → lookup t (mark_found failed (as_failed (some error_code) (some detail)) k o s).1.tasks
            ≡ lookup t s.tasks
      found none = refl
      found (some r) = elim (Bool-cases (is_status r.status failed)) [
        | inl y ↦ rw y refl
        | inr m ↦ rw m (
            lookup-insert k t (update r) s.tasks
            ∙ ap (λ b. if b then some (update r) else lookup t s.tasks) n)
      ]

  -- A task that is offered behind the loop was there before, and is none of those marked.
  cancel_each-kept :
      (rows : List QueuedTaskRecord) (t : String) (row : QueuedTaskRecord) (s : PollStore)
      → lookup t (cancel_each error_code detail rows s).1.tasks ≡ some row
      → (is_offered row ≡ false)
        ⊎ ((lookup t s.tasks ≡ some row) × (has t (map (λ r. r.task_id) rows) ≡ false))
  unfolding cancel_each
  cancel_each-kept [] t row s h = inr (h, refl)
  cancel_each-kept (r ∷ rows) t row s h =
      elim (cancel_each-kept rows t row (mark_failed r.task_id (some error_code) (some detail) s).1
        h) [
          | inl gone ↦ inl gone
          | inr (there, others) ↦ elim (Bool-cases (r.task_id == t)) [
            | inl e ↦
                let same = (eq_iff r.task_id t).0 e in
                inl (
                  mark_failed_self r.task_id row s (
                    ap
                      (λ k.
                        lookup k (mark_failed r.task_id (some error_code) (some detail) s).1.tasks)
                      same
                    ∙ there))
            | inr n ↦
                inr (sym (mark_failed-other r.task_id t s n) ∙ there, ground (arith, n, others))
          ]
        ]

-- When each task is stored under its own id, cancelling the offers of a run leaves no task that is
-- offered for the run, under any id.
pub cancel_offered_for_run-none :
    (run_id error_code detail : String) (s : PollStore)
    → IsKeyed s.tasks
    → (t : String) (row : QueuedTaskRecord)
    → lookup t (cancel_offered_for_run run_id error_code detail s).1.tasks ≡ some row
    → is_offered_for (prefixed_run run_id) row ≡ false
unfolding cancel_offered_for_run list_offered_for_run
cancel_offered_for_run-none run_id error_code detail s keyed t row h =
    let p = is_offered_for (prefixed_run run_id) in
    elim (cancel_each-kept error_code detail (keep p (values s.tasks)) t row s h) [
      | inl gone ↦ ap (λ b. b && (row.offer.run_id == prefixed_run run_id)) gone
      | inr (there, others) ↦ elim (Bool-cases (p row)) [
        | inl y ↦
            let member = listed p t row s.tasks there y in
            absurd (
              clash
                (ap (λ k. has k (map (λ r. r.task_id) (keep p (values s.tasks))))
                    (sym (keyed t row there))
                  ∙ member)
                others)
        | inr n ↦ n
      ]
    ]
  where
    clash : {b : Bool} → b ≡ true → b ≢ false
    clash e f = cc
