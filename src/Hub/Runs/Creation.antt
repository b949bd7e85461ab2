-- ===== src/Hub/Runs/Creation.antt =====
-- Creating a session: `createSession` of packages/hub-core/src/run/service.ts.
use murrmure.Prelude.{String, Option, none, some, List, [], ◌∷◌, non_empty}
use murrmure.Dict.{string_key}
use murrmure.Json.{str, end, field, or_undefined}
use murrmure.Hub.Ids.{strip_prefix, add_prefix}
use murrmure.Hub.Runs.{SessionRow, session_active, Studio}
use murrmure.Hub.Runs.Sessions.{set_session}
use murrmure.Hub.Runs.Service.{SpaceEvent, Services}
use murrmure.Hub.Runs.Start.{Hub}
use murrmure.Hub.Runs.Cancellation.{SessionDto, to_session_dto}

-- `created_by` is left out, as in the row.
pub record CreateSessionInput : Type 0 where
  pub title : String
  pub subject : Option String
  pub actor_id : String
  pub token_id : String
  pub space_id : Option String

-- `insertSession` of packages/hub-persistence/src/memory.ts.
unfoldable pub insert_session : SessionRow → Studio → Studio
insert_session row s = set_session row.session_id row s

abbrev pub touched_first : Option String → List String
touched_first none = []
touched_first (some space_id) = strip_prefix space_id ∷ []

abbrev pub new_session : CreateSessionInput → (session_id : String) → SessionRow
new_session input session_id = record {
  session_id = session_id;
  title = input.title;
  subject = input.subject;
  status = session_active;
  spaces_touched = touched_first (non_empty input.space_id);
  actor_id = input.actor_id;
  cancel_requested_at = none;
}

abbrev pub session_created : CreateSessionInput → (space_id session_id : String) → SpaceEvent
session_created input space_id session_id = record {
  event_type = "mrmr.session.created";
  space_id = space_id;
  session_id = add_prefix "ses" session_id;
  run_id = none;
  actor_id = input.actor_id;
  token_id = input.token_id;
  event_data = field "title" (str input.title) (field "subject" (or_undefined input.subject) end);
}

module _ {W : Type 0} (services : Services W) where
  abbrev pub journal_creation : Option String → CreateSessionInput → (session_id : String) → W → W
  journal_creation none input session_id w = w
  journal_creation (some space_id) input session_id w =
      services.append_space_journal (session_created input space_id session_id) w

  unfoldable pub create_session : CreateSessionInput → Hub W → SessionDto × Hub W
  create_session input hub =
      let id = services.ulid hub.world in
      let now = services.now_iso id.1 in
      let row = new_session input id.0 in
      (
        to_session_dto row,
        record {
          studio = insert_session row hub.studio;
          world = journal_creation (non_empty input.space_id) input id.0 now.1;
        },
      )
