-- ===== src/Kernel/Projections.antt =====
-- packages/runtime-kernel/src/projections/dispatcher.ts.
use murrmure.Prelude.{
  template, [], ◌∷◌, ℕ, String, not, Option, none, some, List, ltb, if◌then◌else◌, fold,
}
use murrmure.Prelude.Int.{pos, pred_int}
use murrmure.Json.{
  Value, num, str, arr, obj, Values, nil, cons, Fields, end, field, get, or_undefined,
}
use murrmure.Contracts.Journal.{JournalEntry}
use murrmure.Store.State.{Projection}
use murrmure.Store.Transaction.{try_mark_projection_applied, upsert_projection}
use murrmure.Store.Port.{
  tail_journal, default_limit, get_projection, set_projection_cursor, acquire_projection_lock,
  release_projection_lock,
}
use murrmure.Kernel.ReactionMatch.{kind_value, outcome_value, count_values}
use murrmure.Kernel.World.{
  Ports, ProjectionHandler, M, pure, reject, ◌>>◌, gets, modify, access, in_tx, run_in_transaction,
  date_after, ◌>>=◌,
}

-- The object that `auditTailHandler` keeps of an entry.
abbrev pub audit_record : JournalEntry → Value
audit_record e = obj (
    field "seq" (num e.seq) (
      field "entry_id" (str e.entry_id) (
        field "type" (str e.type) (
          field "outcome" (outcome_value e.outcome) (
            field "scope_id" (str e.scope_id) (
              field "aggregate_id" (or_undefined e.aggregate_id) (
                field "actor_id" (str e.actor_id) (
                  field "credential_id" (str e.credential_id) (
                    field "command_id" (or_undefined e.command_id) (
                      field "ts" (str e.ts) (
                        field "kind" (kind_value e.kind)
                          (field "payload" (obj e.payload) end))))))))))))

abbrev pub push : Values → Value → Values
push nil v = cons v nil
push (cons u us) v = cons u (push us v)

abbrev pub as_arr : Value → Values
as_arr (arr vs) = vs
as_arr _ = nil

abbrev pub entries_of : Option Fields → Values
entries_of none = nil
entries_of (some state) = as_arr (get "entries" state)

unfoldable pub audit_tail_handler : ProjectionHandler
audit_tail_handler entry prior =
    let entries = push (entries_of prior) (audit_record entry) in
    some (field "entries" (arr entries) (field "count" (num (count_values entries)) end))

abbrev pub state_of : Option Projection → Option Fields
state_of none = none
state_of (some p) = some p.state

abbrev pub write_next : String → JournalEntry → Option Fields → M (Unit {0})
write_next name entry none = pure tt
write_next name entry (some next) = in_tx (
    upsert_projection (record {
      name = name;
      scope_id = entry.scope_id;
      aggregate_id = entry.aggregate_id;
      seq = entry.seq;
      state = next;
    }))

-- The body of the transaction.
abbrev pub apply_once : String → ProjectionHandler → JournalEntry → M (Unit {0})
apply_once name handler entry = do
  applied ← in_tx (try_mark_projection_applied name entry.seq)
  existing ← gets (get_projection name entry.scope_id entry.aggregate_id)
  if not applied then pure tt else write_next name entry (handler entry (state_of existing))

unfoldable pub dispatch_projection : String → ProjectionHandler → JournalEntry → M (Unit {0})
unfolding run_in_transaction try_mark_projection_applied upsert_projection get_projection
    set_projection_cursor
dispatch_projection name handler entry =
    run_in_transaction (apply_once name handler entry)
    >> modify (set_projection_cursor name (pos entry.seq))

-- The variables of the loop in `rebuildProjection`.
pub record Rebuilt : Type 0 where
  pub state : Option Fields
  pub last_seq : ℕ
  pub last_scope : String
  pub last_agg : Option String

abbrev pub rebuild_step : ProjectionHandler → Rebuilt → JournalEntry → Rebuilt
rebuild_step handler acc entry = elim (handler entry acc.state) [
  | none ↦ acc
  | some next ↦ record {
    state = some next;
    last_seq = entry.seq;
    last_scope = entry.scope_id;
    last_agg = entry.aggregate_id;
  }
]

unfoldable pub rebuild_loop : ProjectionHandler → List JournalEntry → Rebuilt
rebuild_loop handler entries =
    fold (rebuild_step handler)
      (record { state = none; last_seq = 0; last_scope = ""; last_agg = none }) entries

-- What is written at the end: nothing if no entry gave a state.
abbrev pub write_rebuilt : String → Rebuilt → M (Unit {0})
write_rebuilt name acc = elim acc.state [
  | none ↦ pure tt
  | some state ↦
      if ltb 0 acc.last_seq
      then run_in_transaction (
          in_tx (
            upsert_projection (record {
              name = name;
              scope_id = acc.last_scope;
              aggregate_id = acc.last_agg;
              seq = acc.last_seq;
              state = state;
            })))
        >> modify (set_projection_cursor name (pos acc.last_seq))
      else pure tt
]

-- What is done under the lock.
unfoldable pub rebuild_locked : String → ProjectionHandler → ℕ → String → M (Unit {0})
unfolding run_in_transaction upsert_projection set_projection_cursor release_projection_lock
    tail_journal rebuild_loop
rebuild_locked name handler from_seq owner = do
  modify (set_projection_cursor name (pred_int from_seq))
  entries ← gets (tail_journal from_seq default_limit)
  write_rebuilt name (rebuild_loop handler entries)
  modify (release_projection_lock name owner)

-- The lease of the lock is a minute. The handler throws in no case, so the lock is released at
-- the end of the body.
unfoldable pub rebuild_projection : Ports → String → ProjectionHandler → ℕ → String → M (Unit {0})
unfolding rebuild_locked acquire_projection_lock date_after
rebuild_projection ports name handler from_seq owner = do
  now ← date_after ports 0
  expires ← date_after ports 60000
  acquired ← access (acquire_projection_lock now expires name owner)
  if not acquired
      then reject (template ("Projection lock held: " ∷ name ∷ []))
      else rebuild_locked name handler from_seq owner
