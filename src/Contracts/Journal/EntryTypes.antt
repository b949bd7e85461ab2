-- ===== src/Contracts/Journal/EntryTypes.antt =====
-- ENTRY_TYPES of packages/runtime-contracts/src/journal/entry-types.ts.
use murrmure.Prelude.{String, Bool, ◌||◌, ◌==◌}

abbrev pub aggregate_created : String
aggregate_created = "aggregate.created"

abbrev pub transition_applied : String
transition_applied = "transition.applied"

abbrev pub transition_denied : String
transition_denied = "transition.denied"

abbrev pub policy_denied : String
policy_denied = "policy.denied"

abbrev pub revision_conflict : String
revision_conflict = "revision.conflict"

abbrev pub validation_denied : String
validation_denied = "validation.denied"

abbrev pub checkpoint_created : String
checkpoint_created = "checkpoint.created"

abbrev pub checkpoint_vote : String
checkpoint_vote = "checkpoint.vote"

abbrev pub checkpoint_resolved : String
checkpoint_resolved = "checkpoint.resolved"

abbrev pub checkpoint_rejected : String
checkpoint_rejected = "checkpoint.rejected"

abbrev pub event_appended : String
event_appended = "event.appended"

abbrev pub wait_registered : String
wait_registered = "wait.registered"

abbrev pub wait_cancelled : String
wait_cancelled = "wait.cancelled"

abbrev pub reaction_registered : String
reaction_registered = "reaction.registered"

abbrev pub reaction_disabled : String
reaction_disabled = "reaction.disabled"

-- Membership in STATE_MUTATING_TYPES.
abbrev pub is_state_mutating_type : String → Bool
is_state_mutating_type type = aggregate_created == type || transition_applied == type
