-- ===== src/Hub/Runs/Lifecycle.antt =====
-- The lifecycle of a run: packages/hub-core/src/run/lifecycle.ts.

use murrmure.Prelude.{String, Bool, ◌||◌, Option, none, some, if◌then◌else◌, is_some}
use murrmure.Hub.Ids.{after_prefix}
use murrmure.Hub.Runs.{RunLifecycle, working, input_required, completed, failed, cancelled}
use murrmure.Hub.Runs.Status.{is_run_terminal}

-- `text.includes(part)`.
unfoldable pub includes : String → String → Bool
includes part String.[] = is_some (after_prefix part String.[])
includes part (String.◌∷◌ c text) =
    let later = includes part text in is_some (after_prefix part (String.◌∷◌ c text)) || later

-- `to_lower_case` is `state.toLowerCase()`.
unfoldable pub instance_state_to_lifecycle : (String → String) → String → RunLifecycle
instance_state_to_lifecycle to_lower_case state =
    let normalized = to_lower_case state in
    if includes "cancel" normalized
    then cancelled
    else if includes "fail" normalized || includes "error" normalized
    then failed
    else if includes "input" normalized
        || includes "pending" normalized
        || includes "gate" normalized
        || includes "wait" normalized
    then input_required
    else if includes "complete" normalized
        || includes "resolved" normalized
        || includes "done" normalized
        || includes "converged" normalized
    then completed
    else working

-- The code of the refusal, if there is one.
abbrev pub assert_run_not_terminal : RunLifecycle → Option String
assert_run_not_terminal lifecycle = if is_run_terminal lifecycle then some "RUN_TERMINAL" else none
