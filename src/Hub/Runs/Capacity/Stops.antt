-- ===== src/Hub/Runs/Capacity/Stops.antt =====
-- The number of active runs when runs and sessions are cancelled, and sessions created:
-- packages/hub-core/src/run/service.ts.
use murrmure.Prelude.{
  ℕ, ◌≡◌, refl, String, Bool, true, false, ◌&&◌, Option, none, some, List, [], ◌∷◌, arith,
  non_empty, Bool-cases, inl, inr,
}
use murrmure.Dict.{lookup, string_key}
use murrmure.Hub.Ids.{strip_prefix, prefixed_run}
use murrmure.Hub.Runs.{
  RunRow, SessionRow, SessionStatus, session_cancelled, cancelled, Studio, get_run, update_found,
  update_run_lifecycle, with_lifecycle, bare_run_id, bare_session_id, in_space, of_flow,
}
use murrmure.Hub.Runs.Status.{is_run_terminal}
use murrmure.Hub.Runs.Sessions.{
  get_session, refresh_session_status, update_session_status, with_status,
}
use murrmure.Hub.Runs.Service.{Services}
use murrmure.Hub.Runs.Start.{Hub}
use murrmure.Hub.Runs.Guarded.{CancelInput, cancel_found, cancel_run}
use murrmure.Hub.Runs.Creation.{CreateSessionInput, insert_session, create_session}
use murrmure.Hub.Runs.Cancellation.{
  CancelSessionInput, with_cancel_request, mark_session_cancel_requested, is_stoppable, stop_run,
  stop_runs, cancel_session_found, cancel_session, cancel_session_timeout,
}
use murrmure.Hub.Runs.Counting.{passes, count-insert_other}
use murrmure.Hub.Runs.Growth.{Same, update_session-Same, refresh_session_status-Same}
use murrmure.Hub.Runs.Capacity.{active_of, used-count, Within}
use murrmure.Hub.Runs.Capacity.Starts.{Within-fewer, Within-Same}

update_session_status-Same :
    (session_id : String) (status : SessionStatus) (s : Studio)
    → Same s (update_session_status session_id status s)
unfolding update_session_status
update_session_status-Same session_id status s =
    update_session-Same (with_status status) (bare_session_id session_id) (get_session session_id s)
      s

mark_session_cancel_requested-Same :
    (session_id at : String) (s : Studio) → Same s (mark_session_cancel_requested session_id at s)
unfolding mark_session_cancel_requested
mark_session_cancel_requested-Same session_id at s =
    update_session-Same (with_cancel_request at) (bare_session_id session_id)
      (get_session session_id s) s

module _ {W : Type 0} (services : Services W) (before : String → String → Bool) (extra : ℕ) where
  -- A run that is cancelled is not active.
  cancelled-Within :
      (bare : String) (ended_at : Option String) (o : Option RunRow) (s : Studio)
      → Within before extra s
      → Within before extra (update_found bare cancelled ended_at o s)
  cancelled-Within bare ended_at none s w = w
  cancelled-Within bare ended_at (some r) s w =
      Within-fewer services before extra s (update_found bare cancelled ended_at (some r) s) refl
        λ space flow policy plain named limited.
          let p = passes (active_of space flow) in
          let row = with_lifecycle cancelled ended_at r in
          omega (
            arith,
            used-count before space flow s,
            used-count before space flow (update_found bare cancelled ended_at (some r) s),
            count-insert_other p bare row s.runs (
                idle
                  (in_space (non_empty (some space)) row && of_flow (non_empty (some flow)) row)),
            w space flow policy plain named limited,
          )
    where
      idle : (b : Bool) → (b && false) ≡ false
      idle true = refl
      idle false = refl

  pub cancel_run-Within :
      (input : CancelInput) (hub : Hub W)
      → Within before extra hub.studio
      → Within before extra (cancel_run services before input hub).1.studio
  unfolding cancel_run update_run_lifecycle
  cancel_run-Within input hub w = found (get_run (strip_prefix input.run_id) hub.studio)
    where
      found :
          (o : Option RunRow)
          → Within before extra
              (cancel_found services before o (strip_prefix input.run_id) input hub).1.studio
      found none = w
      found (some run) = elim (Bool-cases (is_run_terminal run.lifecycle)) [
        | inl y ↦ rw y w
        | inr n ↦
            let bare = bare_run_id (strip_prefix input.run_id) in
            let at = some (services.now_iso hub.world).0 in
            let stopped = update_found bare cancelled at (lookup bare hub.studio.runs) hub.studio in
            rw n (
              Within-Same services before extra stopped
                (refresh_session_status run.session_id stopped)
                (refresh_session_status-Same run.session_id stopped)
                (cancelled-Within bare at (lookup bare hub.studio.runs) hub.studio w))
      ]

  pub create_session-Within :
      (input : CreateSessionInput) (hub : Hub W)
      → Within before extra hub.studio
      → Within before extra (create_session services input hub).1.studio
  unfolding create_session insert_session
  create_session-Within input hub w =
      Within-Same services before extra hub.studio (create_session services input hub).1.studio
        (record { runs = refl; index = refl }) w

  -- The loops of a session's cancellation.
  stop_run-Within :
      (at : W → String × W) (hub : Hub W) (r : RunRow)
      → Within before extra hub.studio
      → Within before extra (stop_run services at hub r).studio
  unfolding update_run_lifecycle
  stop_run-Within at hub r w = elim (Bool-cases (is_stoppable r.lifecycle)) [
    | inl y ↦
        let bare = bare_run_id r.run_id in
        let stopped =
          services.terminate_run_executors (prefixed_run r.run_id) "session cancelled" hub.world in
        rw y
          (cancelled-Within bare (some (at stopped).0) (lookup bare hub.studio.runs) hub.studio w)
    | inr n ↦ rw n w
  ]

  stop_runs-Within :
      (at : W → String × W) (runs : List RunRow) (hub : Hub W)
      → Within before extra hub.studio
      → Within before extra (stop_runs services at runs hub).studio
  unfolding stop_runs
  stop_runs-Within at [] hub w = w
  stop_runs-Within at (r ∷ runs) hub w =
      stop_runs-Within at runs (stop_run services at hub r) (stop_run-Within at hub r w)

  ended-Within :
      (session_bare : String) (status : SessionStatus) (s : Studio)
      → Within before extra s
      → Within before extra (update_session_status session_bare status s)
  ended-Within session_bare status s w =
      Within-Same services before extra s (update_session_status session_bare status s)
        (update_session_status-Same session_bare status s) w

  pub cancel_session-Within :
      (input : CancelSessionInput) (hub : Hub W)
      → Within before extra hub.studio
      → Within before extra (cancel_session services input hub).1.studio
  unfolding cancel_session
  cancel_session-Within input hub w = found (get_session (strip_prefix input.session_id) hub.studio)
    where
      found :
          (o : Option SessionRow)
          → Within before extra
              (cancel_session_found services o (strip_prefix input.session_id) input hub).1.studio
      found none = w
      found (some session) =
          let bare = strip_prefix input.session_id in
          let now = (services.now_iso hub.world).0 in
          ended-Within bare _ _ (
            stop_runs-Within _ _ _ (
              Within-Same services before extra hub.studio
                (mark_session_cancel_requested bare now hub.studio)
                (mark_session_cancel_requested-Same bare now hub.studio) w))

  pub cancel_session_timeout-Within :
      (session_bare : String) (hub : Hub W)
      → Within before extra hub.studio
      → Within before extra (cancel_session_timeout services session_bare hub).studio
  unfolding cancel_session_timeout
  cancel_session_timeout-Within session_bare hub w =
      ended-Within session_bare session_cancelled _ (stop_runs-Within _ _ hub w)
