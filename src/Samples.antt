-- ===== src/Samples.antt =====
-- A kernel at work on a small rule set: concrete ports, commands and the world behind them, at
-- which the theorems are applied.
pub mod Runs
pub mod Parts
pub mod Flows
pub mod Hub
pub mod Capacity
use murrmure.Prelude.{
  ℕ, zero, suc, String, ◌≡◌, refl, ap, true, none, some, List, [], ◌∷◌, arith, ◌==◌, exists,
}
use murrmure.Prelude.Int.{pos}
use murrmure.Json.{end}
use murrmure.Contracts.Results.{Provenance, agent}
use murrmure.Contracts.Rules.{RuleRef, RuleArtifact, RuleTransition}
use murrmure.Contracts.Results
use murrmure.Contracts.Commands.{
  KernelCommand, TransitionCommand, aggregate_create, state_transition,
}
use murrmure.Kernel.Executor.{ConditionPort}
use murrmure.Kernel.Requests.{Request, run_kernel, append_space, history}
use murrmure.Kernel.World.{World, Ports, action_success, initial_world}
use murrmure.Kernel.Projections.{audit_tail_handler}

-- Ids of growing length.
abbrev pub marks : ℕ → String
marks zero = "i"
marks (suc n) = String.◌∷◌ "i" (marks n)

abbrev size : String → ℕ
size String.[] = 0
size (String.◌∷◌ c rest) = suc (size rest)

size-marks : (n : ℕ) → size (marks n) ≡ suc n
size-marks zero = refl
size-marks (suc n) = omega (arith, size-marks n)

pub marks-injective : (j k : ℕ) → marks j ≡ marks k → j ≡ k
marks-injective j k e = omega (arith, size-marks j, size-marks k, ap size e)

abbrev pub review_ref : RuleRef
review_ref = record { rule_ref_id = "review"; digest = "d"; version = "1" }

abbrev pub submit : RuleTransition
submit = record {
  id = "t1";
  from = "draft";
  to = "review";
  event = "submit";
  actors = "ada" ∷ [];
  condition = none;
  checkpoint = none;
}

abbrev pub review_rules : RuleArtifact
review_rules = record {
  id = "review";
  version = "1";
  initial_state = "draft";
  terminal_states = "done" ∷ [];
  metadata_schema = end;
  states = [];
  transitions =
      submit ∷ record submit { id = "t2"; from = "review"; to = "done"; event = "accept" } ∷ [];
  declarations = none;
}

abbrev pub any_actor : ConditionPort
any_actor = record {
  evaluate = λ condition aggregate event. true;
  match_actor = λ actor_id patterns actor_kind. exists (λ p. p == actor_id) patterns;
}

abbrev pub sample_ports : Ports
sample_ports = record {
  ulid = marks;
  now_iso = λ n. "2026-01-01T00:00:00Z";
  date_now = λ n. n;
  to_iso = λ ms. "2026-01-01T00:00:01Z";
  evaluate_policy = λ p kind. record { allowed = true; denial_code = none; denial_message = none };
  load_rules = λ r. some review_rules;
  condition = any_actor;
  validate = λ schema payload. record { valid = true; errors = none };
  invoke = λ action ctx. some action_success;
  projection_handlers = ("audit_tail", audit_tail_handler) ∷ [];
}

abbrev pub ada : String → Provenance
ada command_id = record {
  scope_id = "space";
  actor_id = "ada";
  credential_id = "key";
  aggregate_id = none;
  command_id = some command_id;
  actor_kind = some agent;
}

abbrev pub create_first : KernelCommand
create_first = record {
  provenance = ada "c1";
  kind = aggregate_create (record { rule_ref = review_ref; metadata = none });
}

-- The first aggregate has the first id.
abbrev pub submit_command : TransitionCommand
submit_command = record {
  aggregate_id = marks 0;
  event = "submit";
  payload = none;
  expected_revision = pos 0;
  block_on = none;
}

abbrev pub submit_first : KernelCommand
submit_first = record { provenance = ada "c2"; kind = state_transition submit_command }

-- The two commands, with an entry of the space between them.
abbrev pub sample_requests : List Request
sample_requests =
    run_kernel create_first
    ∷ append_space "space" "aggregate.created" end "ada" "key"
    ∷ run_kernel submit_first
    ∷ []

abbrev pub sample_world : World
sample_world = history sample_ports sample_requests initial_world
