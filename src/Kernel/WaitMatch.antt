-- ===== src/Kernel/WaitMatch.antt =====
-- packages/runtime-kernel/src/waiters/match.ts: does an entry satisfy a wait?
use murrmure.Prelude.{
  ℕ, suc, String, Bool, true, false, not, ◌&&◌, ◌||◌, Option, none, some, List, [], ◌∷◌, ◌==◌,
  nat_eq, if◌then◌else◌, get_or, non_empty, exists,
}
use murrmure.Json.{str, Fields, end, field, get, strict_eq}
use murrmure.Contracts.Journal.{JournalEntry}
use murrmure.Contracts.Journal.EntryTypes.{
  aggregate_created, transition_applied, checkpoint_resolved, checkpoint_rejected,
}
use murrmure.Contracts.Aggregates.{Decision, approved}
use murrmure.Contracts.Waits.{WaitCondition, Conditions}
use murrmure.Kernel.Fold.{is_success}

-- `CompoundProgress.satisfied`: the set of the keys `all:${i}`, by their numbers.
abbrev pub Progress : Type 0
Progress = List ℕ

abbrev pub is_satisfied : ℕ → Progress → Bool
is_satisfied i = exists (nat_eq i)

pub record MatchResult : Type 0 where
  pub matched : Bool
  pub progress : Option Progress

abbrev pub just : Bool → MatchResult
just matched = record { matched = matched; progress = none }

-- `payloadMatches`: each field of `match` is in the payload.
unfoldable pub payload_matches : Fields → Fields → Bool
payload_matches payload end = true
payload_matches payload (field key value match) =
    strict_eq (get key payload) value && payload_matches payload match

abbrev pub match_state : String → JournalEntry → Bool
match_state state entry =
    if (entry.type == transition_applied) && is_success entry.outcome
    then strict_eq (get "to" entry.payload) (str state)
    else if (entry.type == aggregate_created) && is_success entry.outcome
    then strict_eq (get "initial_state" entry.payload) (str state)
    else false

abbrev pub match_entry : String → Option Fields → JournalEntry → Bool
match_entry entry_type match entry =
    if not (entry.type == entry_type) || not (is_success entry.outcome)
    then false
    else (elim match [ none ↦ true | some fields ↦ payload_matches entry.payload fields ])

abbrev pub is_approved : Option Decision → Bool
is_approved none = false
is_approved (some approved) = true
is_approved (some _) = false

abbrev pub is_rejected : Option Decision → Bool
is_rejected none = false
is_rejected (some approved) = false
is_rejected (some _) = true

abbrev pub other_checkpoint : Option String → JournalEntry → Bool
other_checkpoint wanted entry = elim (non_empty wanted) [
  | none ↦ false
  | some id ↦ not (strict_eq (get "checkpoint_id" entry.payload) (str id))
]

abbrev pub match_checkpoint : Option String → Option Decision → JournalEntry → Bool
match_checkpoint wanted resolution entry =
    if other_checkpoint wanted entry
    then false
    else (entry.type == checkpoint_resolved) && is_approved resolution
      || (entry.type == checkpoint_rejected) && is_rejected resolution

-- `all_of.every((_, i) => satisfied.has(i))`, from index `i` on.
unfoldable pub every_satisfied : ℕ → Conditions → Progress → Bool
every_satisfied i Conditions.missing progress = true
every_satisfied i Conditions.nil progress = true
every_satisfied i (Conditions.cons c cs) progress =
    is_satisfied i progress && every_satisfied (suc i) cs progress

abbrev pub mark : Bool → ℕ → Progress → Progress
mark matched i progress = if matched then i ∷ progress else progress

-- A compound with `all_of` answers by its progress, and any other by `any_of`.
abbrev pub compound_result : Conditions → Bool → Progress → MatchResult
compound_result Conditions.missing any prog = just any
compound_result all_of any prog = record {
  matched = every_satisfied 0 all_of prog;
  progress = some prog;
}

-- A nested call gets the caller's own set, and writes into it.
unfoldable mutual
  unfolding every_satisfied payload_matches

  pub matches_wait_condition : WaitCondition → JournalEntry → Option Progress → MatchResult
  matches_wait_condition (WaitCondition.state state) entry progress = just (match_state state entry)
  matches_wait_condition (WaitCondition.entry entry_type match) entry progress =
      just (match_entry entry_type match entry)
  matches_wait_condition (WaitCondition.checkpoint wanted resolution) entry progress =
      just (match_checkpoint wanted resolution entry)
  matches_wait_condition (WaitCondition.artifact rule_set_key min_version) entry progress =
      just false
  matches_wait_condition (WaitCondition.compound all_of any_of) entry progress =
      let prog = all_of_loop all_of entry 0 (get_or progress []) in
      let any = any_of_loop any_of entry in compound_result all_of any prog

  -- The loop over `all_of`, from index `i` on.
  pub all_of_loop : Conditions → JournalEntry → ℕ → Progress → Progress
  all_of_loop Conditions.missing entry i prog = prog
  all_of_loop Conditions.nil entry i prog = prog
  all_of_loop (Conditions.cons c cs) entry i prog =
      let sub = matches_wait_condition c entry (some prog) in
      let next = mark sub.matched i (get_or sub.progress prog) in
      all_of_loop cs entry (suc i) (if is_satisfied i prog then prog else next)

  pub any_of_loop : Conditions → JournalEntry → Bool
  any_of_loop Conditions.missing entry = false
  any_of_loop Conditions.nil entry = false
  any_of_loop (Conditions.cons c cs) entry =
      (matches_wait_condition c entry none).matched || any_of_loop cs entry
