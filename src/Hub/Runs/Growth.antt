-- ===== src/Hub/Runs/Growth.antt =====
-- What a run start may change in the store: packages/hub-core/src/run/service.ts.
use murrmure.Prelude.{
  ◌≡◌, refl, String, Bool, not, ◌&&◌, Option, none, some, non_empty, is_some, Bool-cases, inl, inr,
}
use murrmure.Dict.{insert, string_key}
use murrmure.Json.{Fields}
use murrmure.Hub.Ids.{strip_prefix}
use murrmure.Hub.Grants.{can_start_flow}
use murrmure.Hub.Runs.{RunRow, SessionRow, SessionStatus, bare_session_id, Studio, insert_run}
use murrmure.Hub.Runs.Sessions.{
  get_session, update_session, update_session_spaces_touched, update_session_status, change_status,
  same_status, with_status, refresh_found, refresh_session_status,
}
use murrmure.Hub.Runs.Service.{Services, CreateRunInput}
use murrmure.Hub.Runs.Start.{
  Hub, strip_space, new_run, store_run, store_created, create_in, create_for, create_run,
  created_instance, instance_command,
}

-- The second state has the same runs and policies as the first.
pub record Same (s t : Studio) : Type 0 where
  pub runs : t.runs ≡ s.runs
  pub index : t.space_index ≡ s.space_index

pub Same-refl : (s : Studio) → Same s s
Same-refl s = record { runs = refl; index = refl }

pub update_session-Same :
    (f : SessionRow → SessionRow) (bare : String) (o : Option SessionRow) (s : Studio)
    → Same s (update_session f bare o s)
update_session-Same f bare none s = Same-refl s
update_session-Same f bare (some row) s = record { runs = refl; index = refl }

pub refresh_session_status-Same :
    (session_id : String) (s : Studio) → Same s (refresh_session_status session_id s)
unfolding refresh_session_status update_session_status
refresh_session_status-Same session_id s =
    refreshed (strip_prefix session_id) (get_session (strip_prefix session_id) s)
  where
    changed : (bare : String) (old new : SessionStatus) → Same s (change_status bare old new s)
    changed bare old new = elim (Bool-cases (same_status new old)) [
      | inl y ↦ rw y (Same-refl s)
      | inr n ↦
          rw n (update_session-Same (with_status new) (bare_session_id bare) (get_session bare s) s)
    ]

    refreshed : (bare : String) (o : Option SessionRow) → Same s (refresh_found bare o s)
    refreshed bare none = Same-refl s
    refreshed bare (some session) = changed bare session.status _

-- What a start may do to the runs and policies: nothing, or insert a run of this space and flow.
pub data Grows (space flow : Option String) (s t : Studio) : Type 0 where
  kept : Same s t → Grows space flow s t
  grown :
      (row : RunRow)
      → row.space_id ≡ space
      → row.flow_id ≡ flow
      → t.runs ≡ insert row.run_id row s.runs
      → t.space_index ≡ s.space_index
      → Grows space flow s t

module _ {W : Type 0} (services : Services W) (before : String → String → Bool)
    (input : CreateRunInput) where
  store_run-Grows :
      (session : SessionRow) (session_bare ts run_id : String) (instance_bare : Option String)
      (hub : Hub W)
      → Grows
          (strip_space (non_empty input.space_id))
          input.flow_id
          hub.studio
          (store_run services before input session session_bare ts run_id instance_bare
            hub).1.studio
  unfolding store_run update_session_spaces_touched insert_run
  store_run-Grows session session_bare ts run_id instance_bare hub =
      let after =
        update_session-Same _ _ (get_session session_bare hub.studio)
          (insert_run (new_run input run_id session_bare ts instance_bare) hub.studio) in
      grown (new_run input run_id session_bare ts instance_bare) refl refl after.runs after.index

  create_in-Grows :
      (contract space : Option String) (session : SessionRow) (session_bare ts run_id : String)
      (hub : Hub W)
      → Grows
          (strip_space (non_empty input.space_id))
          input.flow_id
          hub.studio
          (create_in services before contract space input session session_bare ts run_id
            hub).1.studio
  create_in-Grows none space session session_bare ts run_id hub =
      store_run-Grows session session_bare ts run_id none hub
  create_in-Grows (some contract) none session session_bare ts run_id hub =
      store_run-Grows session session_bare ts run_id none hub
  create_in-Grows (some contract) (some space) session session_bare ts run_id hub =
      stored
        (services.create_instance (instance_command services before input space contract) hub.world)
    where
      stored :
          (r : Option Fields × W)
          → Grows
              (strip_space (non_empty input.space_id))
              input.flow_id
              hub.studio
              (store_created services before input session session_bare ts run_id r
                hub.studio).1.studio
      stored (none, w) = kept (Same-refl hub.studio)
      stored (some body, w) =
          let bare = created_instance body run_id in
          store_run-Grows session session_bare ts bare (some bare)
            (record { studio = hub.studio; world = w })

  pub create_run-Grows :
      (hub : Hub W)
      → Grows
          (strip_space (non_empty input.space_id))
          input.flow_id
          hub.studio
          (create_run services before input hub).1.studio
  unfolding create_run
  create_run-Grows hub = found (get_session (strip_prefix input.session_id) hub.studio)
    where
      found :
          (o : Option SessionRow)
          → Grows
              (strip_space (non_empty input.space_id))
              input.flow_id
              hub.studio
              (create_for services before o input hub).1.studio
      found none = kept (Same-refl hub.studio)
      found (some session) =
          elim (Bool-cases
            (is_some (non_empty input.flow_id) && not (can_start_flow input.capabilities))) [
              | inl y ↦ rw y (kept (Same-refl hub.studio))
              | inr n ↦ rw n (create_in-Grows _ _ session _ _ _ _)
            ]
