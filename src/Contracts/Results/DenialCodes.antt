-- ===== src/Contracts/Results/DenialCodes.antt =====
-- DENIAL_CODES of packages/runtime-contracts/src/types/primitives.ts.
use murrmure.Prelude.{String}

abbrev pub policy_denied : String
policy_denied = "policy_denied"

abbrev pub not_found : String
not_found = "not_found"

abbrev pub revision_conflict : String
revision_conflict = "revision_conflict"

abbrev pub transition_denied : String
transition_denied = "transition_denied"

abbrev pub transition_stale : String
transition_stale = "transition_stale"

abbrev pub checkpoint_pending : String
checkpoint_pending = "checkpoint_pending"

abbrev pub checkpoint_denied : String
checkpoint_denied = "checkpoint_denied"

abbrev pub checkpoint_already_resolved : String
checkpoint_already_resolved = "checkpoint_already_resolved"

abbrev pub validation_denied : String
validation_denied = "validation_denied"

abbrev pub idempotency_replay : String
idempotency_replay = "idempotency_replay"

abbrev pub idempotency_conflict : String
idempotency_conflict = "idempotency_conflict"
