-- ===== src/Samples/Capacity.antt =====
-- The capacity theorem over an apply, two starts of a flow that allows one run, and a cancellation.
use murrmure.Prelude.{
  ◌≢◌, ◌<◌, arith, List, ℕ, ◌+◌, ◌≤◌, ◌≡◌, refl, ap, subst, get_or, String, Bool, false, none, some,
  [], ◌∷◌,
}
use murrmure.Dict.{lookup, insert, string_key, nat_key}
use murrmure.Text.{decimal, digits}
use murrmure.Hub.Sets.{add}
use murrmure.Hub.Ids.{after_prefix, after_underscore, bare_space_id, strip_prefix}
use murrmure.Hub.Runs.{
  update_run_lifecycle, list_runs_by_session, SessionRow, session_active, SpaceIndexSnapshot,
  ResolvedRunPolicy, list_runs, newest_first, place, insert_run,
}
use murrmure.Hub.Runs.Admission.{
  list_indexed_run_policies, policy_of, admit_flow_run, active_flow_runs, active_space_runs,
  assert_space_quiescent,
}
use murrmure.Hub.Runs.Service.{Services, CreateRunInput}
use murrmure.Hub.Guard.{
  Section, waiting, running, settled, Action, run_actions, with_space, begin, settle,
}
use murrmure.Hub.Guard.Order.{run_actions-settled}
use murrmure.Hub.Grants.{has_capability}
use murrmure.Hub.Runs.Sessions.{update_session_spaces_touched, update_session_status}
use murrmure.Hub.Runs.Status.{derive_session_status}
use murrmure.Hub.Runs.Start.{Hub, create_run, store_run}
use murrmure.Hub.Runs.Cancellation.{
  CancelSessionInput, cancel_session, stop_runs, mark_session_cancel_requested,
}
use murrmure.Hub.Runs.Guarded.{get_flow_index_entry, admit_and_create_run}
use murrmure.Hub.Runs.Apply.{apply_space, replace_space_index}
use murrmure.Hub.Runs.Capacity.{IsBareId, used, Within}
use murrmure.Hub.Runs.Capacity.Starts.{IsSpaceGiven}
use murrmure.Hub.Runs.Capacity.Reachable.{
  History, start, start_lane, apply, cancel_all, start_of, then_event, History-Within,
}

-- The world counts the ids and clock readings.
abbrev counting : Services ℕ
counting = record {
  ulid = λ n. (decimal n, n + 1);
  now_iso = λ n. ("t", n + 1);
  create_instance = λ command n. (none, n);
  append_space_journal = λ event n. n;
  terminate_run_executors = λ run_id reason n. n;
}

abbrev before : String → String → Bool
before a b = false

abbrev one_at_a_time : ResolvedRunPolicy
one_at_a_time = record {
  flow = "build";
  max_concurrent_runs = 1;
  origin_space_id = "spc_dev";
  flow_id = "flw_b";
  flow_digest = "d";
}

abbrev snapshot : SpaceIndexSnapshot
snapshot = record {
  flows = record { flow_id = "flw_b"; origin_space_id = "spc_dev"; digest = "d" } ∷ [];
  run_policies = one_at_a_time ∷ [];
}

abbrev session : SessionRow
session = record {
  session_id = "1";
  title = "s";
  subject = none;
  status = session_active;
  spaces_touched = [];
  actor_id = "ada";
  cancel_requested_at = none;
}

abbrev fresh : Hub ℕ
fresh = record {
  studio = record { runs = []; sessions = ("1", session) ∷ []; space_index = []; flow_index = [] };
  world = 0;
}

abbrev input : CreateRunInput
input = record {
  session_id = "ses_1";
  space_id = some "spc_dev";
  flow_id = some "flw_b";
  flow_digest = none;
  input_params = none;
  reference_run_ids = none;
  actor_id = "ada";
  token_id = "tok_1";
  capabilities = "flow:run" ∷ [];
  contract_ref_id = none;
  metadata = none;
  from_step_id = none;
}

abbrev configured : Hub ℕ
configured = record {
  studio = (apply_space before "spc_dev" (λ s. some snapshot) fresh.studio).1;
  world = 0;
}

abbrev started : Hub ℕ
started = (admit_and_create_run counting before input configured).1

abbrev started_again : Hub ℕ
started_again = (admit_and_create_run counting before input started).1

abbrev session_cancel : CancelSessionInput
session_cancel = record {
  session_id = "ses_1";
  actor_id = "ada";
  token_id = "tok_1";
  space_id = none;
}

abbrev stopped : Hub ℕ
stopped = (cancel_session counting session_cancel started_again).1

abbrev restarted : Hub ℕ
restarted = (admit_and_create_run counting before input stopped).1

-- A lane of the same flow, which `createRun` starts without admission.
abbrev with_lane : Hub ℕ
with_lane = (create_run counting before input restarted).1

input_IsSpaceGiven : IsSpaceGiven input.space_id
unfolding after_prefix after_underscore
input_IsSpaceGiven space_id h =
    subst (λ x. strip_prefix x ≡ bare_space_id x) (ap (λ o. get_or o space_id) h) refl

fresh_Within : Within before 0 fresh.studio
unfolding list_indexed_run_policies lookup
fresh_Within space flow policy plain named limited = cc

dev_IsBareId : IsBareId "dev"
unfolding after_prefix
dev_IsBareId = record { bare = refl; given = refl }

dev_limited :
    policy_of "flw_b" (list_indexed_run_policies "dev" with_lane.studio) ≡ some one_at_a_time
unfolding admit_and_create_run get_flow_index_entry admit_flow_run active_flow_runs list_runs
    newest_first place create_run store_run update_session_spaces_touched insert_run has_capability
    apply_space assert_space_quiescent active_space_runs replace_space_index
    list_indexed_run_policies lookup insert after_prefix after_underscore decimal digits
    cancel_session stop_runs mark_session_cancel_requested update_run_lifecycle
    update_session_status derive_session_status list_runs_by_session add
dev_limited = refl

-- The second start was refused.
one_run : used before "dev" "flw_b" started_again.studio ≡ 1
unfolding admit_and_create_run get_flow_index_entry admit_flow_run active_flow_runs list_runs
    newest_first place create_run store_run update_session_spaces_touched insert_run has_capability
    apply_space assert_space_quiescent active_space_runs replace_space_index
    list_indexed_run_policies lookup insert after_prefix after_underscore decimal digits
one_run = refl

-- The cancellation of the session stopped the run, so that another could start.
no_run : used before "dev" "flw_b" stopped.studio ≡ 0
unfolding admit_and_create_run get_flow_index_entry admit_flow_run active_flow_runs list_runs
    newest_first place create_run store_run update_session_spaces_touched insert_run has_capability
    apply_space assert_space_quiescent active_space_runs replace_space_index
    list_indexed_run_policies lookup insert after_prefix after_underscore decimal digits
    cancel_session stop_runs mark_session_cancel_requested update_run_lifecycle
    update_session_status derive_session_status list_runs_by_session add
no_run = refl

run_after_cancel : used before "dev" "flw_b" restarted.studio ≡ 1
unfolding admit_and_create_run get_flow_index_entry admit_flow_run active_flow_runs list_runs
    newest_first place create_run store_run update_session_spaces_touched insert_run has_capability
    apply_space assert_space_quiescent active_space_runs replace_space_index
    list_indexed_run_policies lookup insert after_prefix after_underscore decimal digits
    cancel_session stop_runs mark_session_cancel_requested update_run_lifecycle
    update_session_status derive_session_status list_runs_by_session add
run_after_cancel = refl

-- The lane goes beyond the limit of one.
lane_beyond : used before "dev" "flw_b" with_lane.studio ≡ 2
unfolding admit_and_create_run get_flow_index_entry admit_flow_run active_flow_runs list_runs
    newest_first place create_run store_run update_session_spaces_touched insert_run has_capability
    apply_space assert_space_quiescent active_space_runs replace_space_index
    list_indexed_run_policies lookup insert after_prefix after_underscore decimal digits
    cancel_session stop_runs mark_session_cancel_requested update_run_lifecycle
    update_session_status derive_session_status list_runs_by_session add
lane_beyond = refl

starts_and_lane : History counting before 1 fresh with_lane
starts_and_lane =
    then_event
      (then_event
        (then_event
          (then_event
            (then_event (then_event (start_of fresh) (apply "spc_dev" (λ s. some snapshot) fresh))
              (start input configured input_IsSpaceGiven))
            (start input started input_IsSpaceGiven))
          (cancel_all session_cancel started_again))
        (start input stopped input_IsSpaceGiven))
      (start_lane input restarted)

History-Within_example : used before "dev" "flw_b" with_lane.studio ≤ 1 + 1
History-Within_example =
    History-Within counting before starts_and_lane fresh_Within "dev" "flw_b" one_at_a_time
      dev_IsBareId refl dev_limited

-- Two calls for the same space; the second section starts when the first has ended.
abbrev actions : List Action
actions =
    Action.call "spc_dev"
    ∷ Action.call "dev"
    ∷ Action.start 1
    ∷ Action.start 0
    ∷ Action.finish 0
    ∷ Action.start 1
    ∷ []

abbrev first_section : Section
first_section = record { key = "dev"; prev = none; phase = settled }

abbrev second_section : Section
second_section = record { key = "dev"; prev = some 0; phase = running }

first_found : lookup 0 (run_actions actions).sections ≡ some first_section
unfolding run_actions with_space begin settle lookup insert after_prefix
first_found = refl

second_found : lookup 1 (run_actions actions).sections ≡ some second_section
unfolding run_actions with_space begin settle lookup insert after_prefix
second_found = refl

run_actions-settled_example : first_section.phase ≡ settled
run_actions-settled_example =
    run_actions-settled actions 0 1 first_section second_section first_found second_found refl
      one_below running_begun
  where
    one_below : 0 < 1
    one_below = omega arith

    running_begun : running ≢ waiting
    running_begun e = cc
