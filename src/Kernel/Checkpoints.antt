-- ===== src/Kernel/Checkpoints.antt =====
-- packages/runtime-kernel/src/checkpoint/lifecycle.ts.
use murrmure.Prelude.{String, none, [], get_or}
use murrmure.Contracts.Results.{pending}
use murrmure.Contracts.Rules.{RuleTransition, CheckpointRule}
use murrmure.Contracts.Aggregates.{Checkpoint}

unfoldable pub checkpoint_from_transition :
    (checkpoint_id scope_id aggregate_id : String)
    → RuleTransition
    → CheckpointRule
    → String
    → Checkpoint
checkpoint_from_transition checkpoint_id scope_id aggregate_id transition checkpoint ts = record {
  checkpoint_id = checkpoint_id;
  aggregate_id = aggregate_id;
  scope_id = scope_id;
  transition_id = transition.id;
  from_state = transition.from;
  to_state = transition.to;
  status = pending;
  quorum = record {
    mode = checkpoint.quorum;
    count = get_or checkpoint.count 1;
    assignees = checkpoint.assignees;
  };
  votes = [];
  created_at = ts;
  resolved_at = none;
}
