-- ===== src/Kernel/Fold.antt =====
-- packages/runtime-contracts/src/journal/fold.ts: an aggregate rebuilt from the journal.
pub mod Order
pub mod Reordered
use murrmure.Prelude.{
  ◌+◌, String, Bool, true, false, not, ◌&&◌, ◌||◌, Option, none, some, List, [], ◌∷◌, ◌==◌, leb,
  if◌then◌else◌, get_or, opt_str_eq, keep, find, fold,
}
use murrmure.Json.{Value, str, obj, Fields, end, field, get, spread, truthy, as_str, as_num, as_obj}
use murrmure.Contracts.Results.{
  Outcome, success, denial, AggregateStatus, active, terminal, archived,
}
use murrmure.Contracts.Journal.{JournalEntry}
use murrmure.Contracts.Journal.EntryTypes.{
  aggregate_created, transition_applied, checkpoint_vote, event_appended, is_state_mutating_type,
}
use murrmure.Contracts.Rules.{RuleRef, RuleArtifact, includes}
use murrmure.Contracts.Aggregates.{Aggregate}

abbrev pub is_success : Outcome → Bool
is_success success = true
is_success denial = false

unfoldable pub is_state_mutating_entry : JournalEntry → Bool
is_state_mutating_entry entry = is_success entry.outcome && is_state_mutating_type entry.type

unfoldable pub should_skip_for_fold : JournalEntry → Bool
should_skip_for_fold entry =
    not (is_success entry.outcome) || entry.type == checkpoint_vote || entry.type == event_appended

-- A rule reference as an object, and the cast back.
abbrev pub rule_ref_value : RuleRef → Value
rule_ref_value r = obj (
    field "rule_ref_id" (str r.rule_ref_id)
      (field "digest" (str r.digest) (field "version" (str r.version) end)))

abbrev pub text_at : String → Fields → String
text_at key fields = get_or (as_str (get key fields)) ""

abbrev pub as_rule_ref : Value → RuleRef
as_rule_ref v =
    let fields = get_or (as_obj v) end in
    record {
      rule_ref_id = text_at "rule_ref_id" fields;
      digest = text_at "digest" fields;
      version = text_at "version" fields;
    }

abbrev pub status_value : AggregateStatus → Value
status_value active = str "active"
status_value terminal = str "terminal"
status_value archived = str "archived"

abbrev pub as_status : Value → Option AggregateStatus
as_status (str s) =
    if s == "active"
    then some active
    else if s == "terminal"
    then some terminal
    else if s == "archived"
    then some archived
    else none
as_status _ = none

-- `resolveStatus`, which the executor has too, as `resolveAggregateStatus`.
unfoldable pub resolve_aggregate_status : String → RuleArtifact → AggregateStatus
resolve_aggregate_status state artifact =
    let listed = if includes artifact.terminal_states state then terminal else active in
    elim (find (λ s. s.id == state) artifact.states) [
      | none ↦ listed
      | some def ↦ elim def.kind [ terminal ↦ terminal | archived ↦ archived | active ↦ listed ]
    ]

abbrev pub resolve_status : String → Option RuleArtifact → AggregateStatus
resolve_status state none = active
resolve_status state (some artifact) = resolve_aggregate_status state artifact

abbrev pub initial_of : Option RuleArtifact → String
initial_of none = ""
initial_of (some artifact) = artifact.initial_state

module _ (artifact : Option RuleArtifact) (aggregate_id : String) where
  -- The aggregate that an `aggregate.created` entry starts.
  unfoldable pub created_from : JournalEntry → Aggregate
  created_from entry =
      let p = entry.payload in
      record {
        aggregate_id = aggregate_id;
        scope_id = entry.scope_id;
        rule_ref = as_rule_ref (get "rule_ref" p);
        state = get_or (as_str (get "initial_state" p)) (initial_of artifact);
        metadata = get_or (as_obj (get "metadata" p)) end;
        revision = get_or (as_num (get "revision" p)) 0;
        status = get_or (as_status (get "status" p)) active;
        created_at = entry.ts;
        updated_at = entry.ts;
      }

  -- The aggregate after a `transition.applied` entry.
  unfoldable pub transitioned : Aggregate → JournalEntry → Aggregate
  transitioned aggregate entry =
      let p = entry.payload in
      let to = text_at "to" p in
      record aggregate {
        state = to;
        revision = get_or (as_num (get "revision" p)) (aggregate.revision + 1);
        metadata =
            if truthy (get "metadata_patch" p)
            then spread aggregate.metadata (get_or (as_obj (get "metadata_patch" p)) end)
            else aggregate.metadata;
        updated_at = entry.ts;
        status = get_or (as_status (get "status" p)) (resolve_status to artifact);
      }

  -- The body of the loop.
  unfoldable pub fold_entry : Option Aggregate → JournalEntry → Option Aggregate
  unfolding is_state_mutating_entry
  fold_entry aggregate entry =
      if not (is_state_mutating_entry entry)
      then aggregate
      else if entry.type == aggregate_created
      then some (created_from entry)
      else (elim aggregate [
        | none ↦ none
        | some a ↦ if entry.type == transition_applied then some (transitioned a entry) else some a
      ])

-- A stable sort by `a.seq - b.seq`.
unfoldable pub insert_by_seq : JournalEntry → List JournalEntry → List JournalEntry
insert_by_seq e [] = e ∷ []
insert_by_seq e (x ∷ xs) =
    let later = insert_by_seq e xs in if leb e.seq x.seq then e ∷ x ∷ xs else x ∷ later

unfoldable pub sort_by_seq : List JournalEntry → List JournalEntry
unfolding insert_by_seq
sort_by_seq [] = []
sort_by_seq (x ∷ xs) = insert_by_seq x (sort_by_seq xs)

abbrev pub is_relevant : String → JournalEntry → Bool
is_relevant aggregate_id e =
    opt_str_eq e.aggregate_id (some aggregate_id) && not (should_skip_for_fold e)

unfoldable pub fold_journal_to_snapshot :
    List JournalEntry → String → Option RuleArtifact → Option Aggregate
unfolding sort_by_seq fold_entry should_skip_for_fold
fold_journal_to_snapshot entries aggregate_id artifact =
    fold (fold_entry artifact aggregate_id) none
      (sort_by_seq (keep (is_relevant aggregate_id) entries))
