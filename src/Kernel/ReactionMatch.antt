-- ===== src/Kernel/ReactionMatch.antt =====
-- packages/runtime-kernel/src/reactions/matcher.ts.
use murrmure.Prelude.{
  ℕ, suc, String, Bool, true, false, not, Option, none, some, List, [], ◌∷◌, ◌==◌, ltb,
  if◌then◌else◌, get_or, opt_str_eq, non_empty, template,
}
use murrmure.Json.{
  Value, undefined, bool, num, str, arr, obj, Values, nil, cons, Fields, end, field, get, truthy,
  or_undefined, num_or_undefined, obj_or_undefined,
}
use murrmure.Text.{decimal, split_dots, strip_root, to_text, hash_text, hash_digits, digits_text}
use murrmure.Contracts.Results.{Outcome, success, denial}
use murrmure.Contracts.Journal.{EntryKind, command, event, system, JournalDenial, JournalEntry}
use murrmure.Contracts.Rules.{includes}
use murrmure.Contracts.Reactions.{
  KeyExtractor, json_path, scope, aggregate, scope_aggregate, reaction, ReactionSpec,
}

-- `wanted && found !== wanted`.
abbrev pub differs : Option String → Option String → Bool
differs wanted found = elim (non_empty wanted) [
  | none ↦ false
  | some id ↦ not (opt_str_eq found (some id))
]

abbrev pub not_listed : Option (List String) → String → Bool
not_listed none type = false
not_listed (some types) type = not (includes types type)

unfoldable pub matches_reaction : ReactionSpec → JournalEntry → Bool
unfolding includes
matches_reaction r entry =
    if not r.enabled
    then false
    else if ltb entry.seq r.registered_at_seq
    then false
    else if differs r.filter.source_scope_id (some entry.scope_id)
    then false
    else if differs r.filter.aggregate_id entry.aggregate_id
    then false
    else if not_listed r.filter.entry_types entry.type
    then false
    else true

-- An entry as the object that a path is walked through.
abbrev pub kind_value : EntryKind → Value
kind_value command = str "command"
kind_value event = str "event"
kind_value system = str "system"

abbrev pub outcome_value : Outcome → Value
outcome_value success = str "success"
outcome_value denial = str "denial"

abbrev pub denial_value : Option JournalDenial → Value
denial_value none = undefined
denial_value (some d) = obj (
    field "code" (str d.code) (
      field "message" (str d.message)
        (field "retryable" (bool d.retryable) (field "context" (obj_or_undefined d.context) end))))

abbrev pub correlation_value : Option String → Value
correlation_value none = undefined
correlation_value (some command_id) = obj (field "command_id" (str command_id) end)

abbrev pub entry_fields : JournalEntry → Fields
entry_fields e = field "entry_id" (str e.entry_id) (
    field "kind" (kind_value e.kind) (
      field "outcome" (outcome_value e.outcome) (
        field "scope_id" (str e.scope_id) (
          field "aggregate_id" (or_undefined e.aggregate_id) (
            field "actor_id" (str e.actor_id) (
              field "credential_id" (str e.credential_id) (
                field "command_id" (or_undefined e.command_id) (
                  field "ts" (str e.ts) (
                    field "type" (str e.type) (
                      field "payload" (obj e.payload) (
                        field "denial" (denial_value e.draft.denial) (
                          field "correlation" (correlation_value e.correlation) (
                            field "seq" (num e.seq) (
                              field "scope_seq" (num_or_undefined e.scope_seq) (
                                field "aggregate_seq" (num_or_undefined e.aggregate_seq)
                                  end)))))))))))))))

-- `values[part]` for an array: its length, and its elements by their indices.
abbrev pub count_values : Values → ℕ
count_values nil = 0
count_values (cons v vs) = suc (count_values vs)

unfoldable pub element : String → ℕ → Values → Value
element part i nil = undefined
element part i (cons v vs) =
    let later = element part (suc i) vs in if part == decimal i then v else later

-- `part in value ? value[part] : undefined`, on own properties. The source's `in` also finds the
-- members that every object inherits, such as constructor; a path that names one is left out.
abbrev pub member : String → Value → Value
member part (obj fields) = get part fields
member part (arr vs) = if part == "length" then num (count_values vs) else element part 0 vs
member part _ = undefined

unfoldable pub walk : List String → Value → Value
unfolding element
walk [] value = value
walk (part ∷ path) value = walk path (member part value)

abbrev pub path_parts : String → List String
path_parts key_path = let parts = split_dots (strip_root key_path) in parts.0 ∷ parts.1

abbrev pub uses_path : KeyExtractor → Bool
uses_path json_path = true
uses_path _ = false

-- The value that a `json_path` extractor finds, if it has a path.
unfoldable pub path_value : ReactionSpec → JournalEntry → Value
unfolding walk
path_value r entry =
    if uses_path r.dedup.key_extractor
    then (elim (non_empty r.dedup.key_path) [
      | none ↦ undefined
      | some key_path ↦ walk (path_parts key_path) (obj (entry_fields entry))
    ])
    else undefined

abbrev pub is_defined : Value → Bool
is_defined undefined = false
is_defined _ = true

unfoldable pub extract_dedup_key : ReactionSpec → JournalEntry → String
unfolding path_value
extract_dedup_key r entry =
    let found = path_value r entry in
    let own = get "dedup_key" entry.payload in
    if is_defined found then to_text found else if truthy own then to_text own else entry.entry_id

unfoldable pub partition_key : ReactionSpec → JournalEntry → String
partition_key r entry = elim r.partition [
  | scope ↦ entry.scope_id
  | aggregate ↦ get_or entry.aggregate_id "_"
  | scope_aggregate ↦ template (entry.scope_id ∷ ":" ∷ get_or entry.aggregate_id "_" ∷ [])
  | reaction ↦ r.reaction_id
]

-- The text that is hashed.
abbrev pub raw_key : ReactionSpec → JournalEntry → String
raw_key r entry =
    template (r.reaction_id ∷ "|" ∷ partition_key r entry ∷ "|" ∷ extract_dedup_key r entry ∷ [])

unfoldable pub dedup_fingerprint : ReactionSpec → JournalEntry → String
dedup_fingerprint r entry = digits_text (hash_digits (hash_text (raw_key r entry)))
