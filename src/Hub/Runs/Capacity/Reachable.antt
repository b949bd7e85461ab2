-- ===== src/Hub/Runs/Capacity/Reachable.antt =====
-- The events that change runs and the index of a space, their histories, and the number of active
-- runs behind them: packages/hub-core/src/run and packages/hub-daemon/src/routes/spaces/index.ts.
use murrmure.Prelude.{
  ℕ, suc, ◌+◌, ◌≤◌, ◌≡◌, refl, sym, ap, ◌∙◌, subst, String, Bool, true, false, not, ◌&&◌, Option,
  none, some, List, [], ◌∷◌, if◌then◌else◌, arith, length, non_empty, Bool-cases, inl, inr, ◌==◌,
  eq_iff,
}
use murrmure.Dict.{lookup, values, lookup-insert, string_key}
use murrmure.Hub.Ids.{bare_space_id, strip_prefix}
use murrmure.Hub.Runs.{
  RunRow, cancelled, failed, same_lifecycle, Studio, SpaceIndexSnapshot, get_run, in_space, of_flow,
  has_lifecycle,
}
use murrmure.Hub.Runs.Admission.{
  active_space_runs, list_indexed_run_policies, snapshot_policies, policy_of,
  assert_space_quiescent, quiescence, SpaceApplyQuiescenceError, non_terminal_lifecycles,
}
use murrmure.Hub.Runs.Service.{Services, CreateRunInput}
use murrmure.Hub.Runs.Start.{Hub, create_run}
use murrmure.Hub.Runs.Guarded.{
  admit_and_create_run, CancelInput, RetryInput, cancel_run, retried, retry_found, retry_run,
}
use murrmure.Hub.Runs.Cancellation.{CancelSessionInput, cancel_session, cancel_session_timeout}
use murrmure.Hub.Runs.Creation.{CreateSessionInput, create_session}
use murrmure.Hub.Runs.Capacity.Stops.{
  create_session-Within, cancel_run-Within, cancel_session-Within, cancel_session_timeout-Within,
}
use murrmure.Hub.Runs.Apply.{apply_quiet, commit_candidate, apply_space, replace_space_index}
use murrmure.Hub.Runs.Counting.{passes, length-list_runs, count-weaker}
use murrmure.Hub.Runs.Capacity.{active_of, used, used-count, Within}
use murrmure.Hub.Runs.Capacity.Starts.{IsSpaceGiven, admit_and_create_run-Within, create_run-Within}

module _ {W : Type 0} (services : Services W) (before : String → String → Bool) (extra : ℕ) where
  retry_run-Within :
      (input : RetryInput) (hub : Hub W)
      → ((run : RunRow)
          → get_run (strip_prefix input.run_id) hub.studio ≡ some run
          → IsSpaceGiven (retried input run (strip_prefix input.run_id)).space_id)
      → Within before extra hub.studio
      → Within before extra (retry_run services before input hub).1.studio
  unfolding retry_run
  retry_run-Within input hub given w = found (get_run (strip_prefix input.run_id) hub.studio) refl
    where
      found :
          (o : Option RunRow)
          → get_run (strip_prefix input.run_id) hub.studio ≡ o
          → Within before extra
              (retry_found services before o (strip_prefix input.run_id) input hub).1.studio
      found none e = w
      found (some run) e =
          elim (Bool-cases (
            not (same_lifecycle run.lifecycle failed)
            && not (same_lifecycle run.lifecycle cancelled))) [
              | inl y ↦ rw y w
              | inr n ↦ rw n (
                  admit_and_create_run-Within services before extra
                    (retried input run (strip_prefix input.run_id)) hub (given run e) w)
            ]

  -- In a space without active runs, no flow has an active run.
  quiet-used :
      (space flow : String) (s : Studio)
      → quiescence (active_space_runs before space s) ≡ none
      → used before space flow s ≤ 0
  unfolding active_space_runs
  quiet-used space flow s h =
      let all =
        length-list_runs before
          (record { space_id = some space; flow_id = none; lifecycles = non_terminal_lifecycles })
          s in
      omega (
        arith,
        used-count before space flow s,
        count-weaker (passes (active_of space flow)) _ (values s.runs) (λ r.
            weaker (in_space (non_empty (some space)) r) (of_flow (non_empty (some flow)) r)
              (has_lifecycle non_terminal_lifecycles r)),
        all,
        empty (active_space_runs before space s) h,
      )
    where
      weaker : (a b c : Bool) → ((a && b) && c) ≡ true → ((a && true) && c) ≡ true
      weaker true true c e = e
      weaker true false c e = cc
      weaker false b c e = cc

      empty : (rows : List RunRow) → quiescence rows ≡ none → length rows ≡ 0
      empty [] e = refl
      empty (r ∷ rows) e = cc

  replace_space_index-Within :
      (space_id : String) (snapshot : SpaceIndexSnapshot) (s : Studio)
      → quiescence (active_space_runs before (bare_space_id space_id) s) ≡ none
      → Within before extra s
      → Within before extra (replace_space_index space_id snapshot s)
  unfolding replace_space_index list_indexed_run_policies
  replace_space_index-Within space_id snapshot s quiet w space flow policy plain named limited =
      let kept =
        used-count before space flow (replace_space_index space_id snapshot s)
        ∙ sym (used-count before space flow s) in
      elim (Bool-cases (bare_space_id space_id == space)) [
        | inl y ↦
            let here =
              subst (λ b. quiescence (active_space_runs before b s) ≡ none)
                ((eq_iff (bare_space_id space_id) space).0 y) quiet in
            omega (arith, kept, quiet-used space flow s here)
        | inr n ↦ omega (arith, kept, w space flow policy plain named (elsewhere n))
      ]
    where
      elsewhere :
          (bare_space_id space_id == space) ≡ false
          → policy_of flow (list_indexed_run_policies space s) ≡ some policy
      elsewhere n =
          let key = bare_space_id space_id in
          let other = ap (λ b. key == b) plain.bare ∙ n in
          let found =
            lookup-insert key (bare_space_id space) snapshot s.space_index
            ∙ ap (λ b. if b then some snapshot else lookup (bare_space_id space) s.space_index)
                other in
          sym (ap (λ o. policy_of flow (snapshot_policies o)) found) ∙ limited

  apply_space-Within :
      (space_id : String) (candidate : Studio → Option SpaceIndexSnapshot) (s : Studio)
      → Within before extra s
      → Within before extra (apply_space before space_id candidate s).1
  unfolding apply_space assert_space_quiescent
  apply_space-Within space_id candidate s w =
      quiet (quiescence (active_space_runs before (bare_space_id (bare_space_id space_id)) s)) refl
    where
      committed :
          quiescence (active_space_runs before (bare_space_id (bare_space_id space_id)) s) ≡ none
          → (o : Option SpaceIndexSnapshot)
          → Within before extra (commit_candidate (bare_space_id space_id) o s).1
      committed e none = w
      committed e (some snapshot) =
          replace_space_index-Within (bare_space_id space_id) snapshot s e w

      quiet :
          (o : Option SpaceApplyQuiescenceError)
          → quiescence (active_space_runs before (bare_space_id (bare_space_id space_id)) s) ≡ o
          → Within before extra (apply_quiet o (bare_space_id space_id) candidate s).1
      quiet none e = committed e (candidate s)
      quiet (some error) e = w

module _ {W : Type 0} (services : Services W) (before : String → String → Bool) where
  -- What can happen to the hub, and how many runs are started without admission: `createRun` is
  -- also called on its own, for the lanes of a matrix.
  pub data Event : (extra : ℕ) → Hub W → Hub W → Type 0 where
    start :
        (input : CreateRunInput) (hub : Hub W)
        → IsSpaceGiven input.space_id
        → Event 0 hub (admit_and_create_run services before input hub).1
    start_lane :
        (input : CreateRunInput) (hub : Hub W)
        → Event 1 hub (create_run services before input hub).1
    retry :
        (input : RetryInput) (hub : Hub W)
        → ((run : RunRow)
            → get_run (strip_prefix input.run_id) hub.studio ≡ some run
            → IsSpaceGiven (retried input run (strip_prefix input.run_id)).space_id)
        → Event 0 hub (retry_run services before input hub).1
    cancel :
        (input : CancelInput) (hub : Hub W) → Event 0 hub (cancel_run services before input hub).1
    cancel_all :
        (input : CancelSessionInput) (hub : Hub W)
        → Event 0 hub (cancel_session services input hub).1
    open_session :
        (input : CreateSessionInput) (hub : Hub W)
        → Event 0 hub (create_session services input hub).1
    cancel_late :
        (session_bare : String) (hub : Hub W)
        → Event 0 hub (cancel_session_timeout services session_bare hub)
    apply :
        (space_id : String) (candidate : Studio → Option SpaceIndexSnapshot) (hub : Hub W)
        → Event 0 hub (record {
          studio = (apply_space before space_id candidate hub.studio).1;
          world = hub.world;
        })

  -- A sequence of events, with the number of starts without admission.
  pub data History : (lanes : ℕ) → Hub W → Hub W → Type 0 where
    start_of : (hub : Hub W) → History 0 hub hub
    then_event :
        {n extra : ℕ} {a b c : Hub W} → History n a b → Event extra b c → History (extra + n) a c

  unadmitted : (n m : ℕ) (s : Studio) → n ≡ m → Within before n s → Within before m s
  unadmitted n m s same w = subst (λ k. Within before k s) same w

  Event-Within :
      {extra : ℕ} {a b : Hub W} (n : ℕ)
      → Event extra a b
      → Within before n a.studio
      → Within before (extra + n) b.studio
  Event-Within n (start input hub given) w =
      unadmitted n (0 + n) _ (omega arith)
        (admit_and_create_run-Within services before n input hub given w)
  Event-Within n (start_lane input hub) w =
      unadmitted (suc n) (1 + n) _ (omega arith) (create_run-Within services before n input hub w)
  Event-Within n (retry input hub given) w =
      unadmitted n (0 + n) _ (omega arith) (retry_run-Within services before n input hub given w)
  Event-Within n (cancel input hub) w =
      unadmitted n (0 + n) _ (omega arith) (cancel_run-Within services before n input hub w)
  Event-Within n (cancel_all input hub) w =
      unadmitted n (0 + n) _ (omega arith) (cancel_session-Within services before n input hub w)
  Event-Within n (open_session input hub) w =
      unadmitted n (0 + n) _ (omega arith) (create_session-Within services before n input hub w)
  Event-Within n (cancel_late session_bare hub) w =
      unadmitted n (0 + n) _ (omega arith)
        (cancel_session_timeout-Within services before n session_bare hub w)
  Event-Within n (apply space_id candidate hub) w =
      unadmitted n (0 + n) _ (omega arith)
        (apply_space-Within services before n space_id candidate hub.studio w)

  -- If no flow has more active runs than its policy allows, then after every sequence of starts and
  -- retries by admitAndCreateRun, starts by createRun alone, creations of sessions, cancellations
  -- of runs and of sessions, and applies, in any order, a flow exceeds its policy at most by the
  -- number of starts by createRun alone. The spaces of the admitted starts and retries have the
  -- prefix of a space, or no underscore.
  pub History-Within :
      {lanes : ℕ} {a b : Hub W}
      → History lanes a b
      → Within before 0 a.studio
      → Within before lanes b.studio
  History-Within (start_of hub) w = w
  History-Within (then_event {n} history event) w = Event-Within n event (History-Within history w)
