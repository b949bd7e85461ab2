-- ===== src/Hub/Runs/Status/Summary.antt =====
-- What the status of a session says of its runs: packages/hub-core/src/session/status.ts.
use murrmure.Prelude.{
  ◌≡◌, refl, ap, ◌∙◌, Bool, true, false, not, ◌&&◌, ◌||◌, List, [], ◌∷◌, if◌then◌else◌, exists,
  arith,
}
use murrmure.Hub.Runs.{
  RunLifecycle, working, input_required, completed, failed, cancelled, same_lifecycle,
  SessionStatus, session_active, session_completed, session_failed, session_cancelled,
  partial_failure,
}
use murrmure.Hub.Runs.Status.{
  terminal_lifecycles, active_lifecycles, among, every, derive_session_status,
}

-- The status by what has happened: whether a cancellation was asked for, whether some run is
-- active, completed or failed, and whether all are completed.
abbrev pub status_of :
    (cancel active some_completed some_failed : Bool) → List RunLifecycle → SessionStatus
status_of cancel true c f ls = session_active
status_of true false c f ls = session_cancelled
status_of false false c f [] = session_active
status_of false false true f (l ∷ ls) =
    if every (same_lifecycle completed) (l ∷ ls) then session_completed else partial_failure
status_of false false false true (l ∷ ls) = session_failed
status_of false false false false (l ∷ ls) = session_cancelled

abbrev pub is_active : RunLifecycle → Bool
is_active l = among active_lifecycles l

-- Without active runs, `every` of a test is the absence of the opposite one.
every-not :
    (p q : RunLifecycle → Bool)
    → ((l : RunLifecycle) → is_active l ≡ false → p l ≡ not (q l))
    → (ls : List RunLifecycle) → exists is_active ls ≡ false
    → every p ls ≡ not (exists q ls)
every-not p q h [] idle = refl
every-not p q h (l ∷ ls) idle =
    let (first, others) = split (is_active l) (exists is_active ls) idle in
    both (p l) (every p ls) (q l) (exists q ls) (h l first) (every-not p q h ls others)
  where
    split : (a b : Bool) → (a || b) ≡ false → (a ≡ false) × (b ≡ false)
    split true b e = cc
    split false b e = (refl, e)

    both : (a b c d : Bool) → a ≡ not c → b ≡ not d → (a && b) ≡ not (c || d)
    both a b true d e f = rw e refl
    both a b false d e f = rw (e, f) refl

not-terminal : (l : RunLifecycle) → among terminal_lifecycles l ≡ not (is_active l)
not-terminal working = refl
not-terminal input_required = refl
not-terminal completed = refl
not-terminal failed = refl
not-terminal cancelled = refl

not-completed :
    (l : RunLifecycle)
    → is_active l ≡ false
    → (same_lifecycle l failed || same_lifecycle l cancelled) ≡ not (same_lifecycle completed l)
not-completed working h = cc
not-completed input_required h = cc
not-completed completed h = refl
not-completed failed h = refl
not-completed cancelled h = refl

not-cancelled :
    (l : RunLifecycle)
    → is_active l ≡ false
    → same_lifecycle cancelled l ≡ not (same_lifecycle completed l || same_lifecycle failed l)
not-cancelled working h = cc
not-cancelled input_required h = cc
not-cancelled completed h = refl
not-cancelled failed h = refl
not-cancelled cancelled h = refl

every-terminal :
    (ls : List RunLifecycle) → every (among terminal_lifecycles) ls ≡ not (exists is_active ls)
every-terminal [] = refl
every-terminal (l ∷ ls) = rw (not-terminal l, every-terminal ls) (both (is_active l) _)
  where
    both : (a b : Bool) → (not a && not b) ≡ not (a || b)
    both true b = refl
    both false b = refl

exists-or :
    (p q : RunLifecycle → Bool) (ls : List RunLifecycle)
    → exists (λ l. p l || q l) ls ≡ (exists p ls || exists q ls)
exists-or p q [] = refl
exists-or p q (l ∷ ls) = ground (arith, exists-or p q ls)

completed-exists :
    (l : RunLifecycle) (ls : List RunLifecycle)
    → every (same_lifecycle completed) (l ∷ ls) ≡ true
    → exists (same_lifecycle completed) (l ∷ ls) ≡ true
completed-exists completed ls h = refl
completed-exists working ls h = cc
completed-exists input_required ls h = cc
completed-exists failed ls h = cc
completed-exists cancelled ls h = cc

-- `derive_session_status` of a session that has runs, by the answers of its tests.
abbrev by_tests : (cancel terminal active all unsuccessful all_cancelled : Bool) → SessionStatus
by_tests cancel terminal active all unsuccessful all_cancelled =
    if cancel && terminal
    then session_cancelled
    else if active
    then session_active
    else if all
    then session_completed
    else if unsuccessful
    then (if all_cancelled then session_cancelled else session_failed)
    else if terminal
    then partial_failure
    else session_active

by_tests-status_of :
    (cancel active all c f : Bool) (l : RunLifecycle) (ls : List RunLifecycle)
    → every (same_lifecycle completed) (l ∷ ls) ≡ all
    → (all ≡ true → c ≡ true)
    → by_tests cancel (not active) active all (not c) (not (c || f))
      ≡ status_of cancel active c f (l ∷ ls)
by_tests-status_of true true all c f l ls e h = refl
by_tests-status_of false true all c f l ls e h = refl
by_tests-status_of true false all c f l ls e h = refl
by_tests-status_of false false true c f l ls e h = rw (h refl, e) refl
by_tests-status_of false false false true f l ls e h = rw e refl
by_tests-status_of false false false false true l ls e h = refl
by_tests-status_of false false false false false l ls e h = refl

-- While a run is active, the tests behind that one do not matter.
by_tests-swap :
    (cancel active all u k v m : Bool)
    → (active ≡ false → u ≡ v)
    → (active ≡ false → k ≡ m)
    → by_tests cancel (not active) active all u k ≡ by_tests cancel (not active) active all v m
by_tests-swap true true all u k v m hu hk = refl
by_tests-swap false true all u k v m hu hk = refl
by_tests-swap cancel false all u k v m hu hk = rw (hu refl, hk refl) refl

-- The status of a session, from the lifecycles of its runs: active while a run is active;
-- otherwise cancelled when that was asked for, active when there are no runs, completed when all
-- are completed, a partial failure when only some are, and without any completed run failed when
-- one has failed, and cancelled when all were cancelled.
pub derive_session_status-status_of :
    (ls : List RunLifecycle) (cancel : Bool)
    → derive_session_status ls cancel
      ≡ status_of cancel
          (exists is_active ls)
          (exists (same_lifecycle completed) ls)
          (exists (same_lifecycle failed) ls)
          ls
unfolding derive_session_status
derive_session_status-status_of [] true = refl
derive_session_status-status_of [] false = refl
derive_session_status-status_of (l ∷ ls) cancel =
    let some_failed = exists (same_lifecycle failed) (l ∷ ls) in
    let some_completed = exists (same_lifecycle completed) (l ∷ ls) in
    ap
      (λ t.
        by_tests cancel t (exists is_active (l ∷ ls)) (every (same_lifecycle completed) (l ∷ ls))
          (every (λ r. same_lifecycle r failed || same_lifecycle r cancelled) (l ∷ ls))
          (every (same_lifecycle cancelled) (l ∷ ls)))
      (every-terminal (l ∷ ls))
    ∙ by_tests-swap cancel (exists is_active (l ∷ ls)) (every (same_lifecycle completed) (l ∷ ls)) _
        _ (not some_completed) (not (some_completed || some_failed))
        (every-not _ (same_lifecycle completed) not-completed (l ∷ ls))
        (λ idle.
          every-not _ _ not-cancelled (l ∷ ls) idle
          ∙ ap not (exists-or (same_lifecycle completed) (same_lifecycle failed) (l ∷ ls)))
    ∙ by_tests-status_of cancel (exists is_active (l ∷ ls))
        (every (same_lifecycle completed) (l ∷ ls)) some_completed some_failed l ls refl
        (completed-exists l ls)
