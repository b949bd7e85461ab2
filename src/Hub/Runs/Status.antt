-- ===== src/Hub/Runs/Status.antt =====
-- The status of a session: packages/hub-core/src/session/status.ts.
pub mod Summary
use murrmure.Prelude.{Bool, true, false, ◌&&◌, ◌||◌, List, [], ◌∷◌, if◌then◌else◌, exists}
use murrmure.Hub.Runs.{
  RunLifecycle, working, input_required, completed, failed, cancelled, same_lifecycle,
  SessionStatus, session_active, session_completed, session_failed, session_cancelled,
  partial_failure,
}

abbrev pub terminal_lifecycles : List RunLifecycle
terminal_lifecycles = completed ∷ failed ∷ cancelled ∷ []

abbrev pub active_lifecycles : List RunLifecycle
active_lifecycles = working ∷ input_required ∷ []

-- `lifecycles.includes(l)`.
abbrev pub among : List RunLifecycle → RunLifecycle → Bool
among ls l = exists (same_lifecycle l) ls

-- `xs.every(p)`.
abbrev pub every : (RunLifecycle → Bool) → List RunLifecycle → Bool
every p [] = true
every p (l ∷ ls) = p l && every p ls

abbrev pub is_empty : List RunLifecycle → Bool
is_empty [] = true
is_empty (l ∷ ls) = false

abbrev pub is_run_terminal : RunLifecycle → Bool
is_run_terminal l = among terminal_lifecycles l

unfoldable pub derive_session_status : List RunLifecycle → Bool → SessionStatus
derive_session_status ls cancel_requested =
    if cancel_requested && every (among terminal_lifecycles) ls
    then session_cancelled
    else if is_empty ls
    then (if cancel_requested then session_cancelled else session_active)
    else if exists (among active_lifecycles) ls
    then session_active
    else if every (same_lifecycle completed) ls
    then session_completed
    else if every (λ l. same_lifecycle l failed || same_lifecycle l cancelled) ls
    then (if every (same_lifecycle cancelled) ls then session_cancelled else session_failed)
    else if every (among terminal_lifecycles) ls
    then partial_failure
    else session_active
