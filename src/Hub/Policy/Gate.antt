-- ===== src/Hub/Policy/Gate.antt =====
-- The kernel's execute behind the policy port of the hub: packages/hub-core/src/kernel.ts hands
-- packages/hub-core/src/ports/policy.ts to packages/runtime-kernel/src/command/handler.ts.
use murrmure.Prelude.{
  suc, ◌≡◌, refl, ap, ◌∙◌, String, Bool, true, false, Option, none, some, get_or,
}
use murrmure.Dict.{Dict, lookup, string_key}
use murrmure.Contracts.Results.{Provenance, forbidden}
use murrmure.Contracts.Journal.{JournalEntryDraft}
use murrmure.Contracts.Journal.EntryTypes
use murrmure.Contracts.Commands.{
  CommandKind, aggregate_create, state_transition, event_append, wait_register, wait_cancel,
  reaction_register, reaction_disable, reaction_replay,
}
use murrmure.Kernel.Entries.{build_denial_entry}
use murrmure.Kernel.World.{World, Ports, Result, ok, rejected, pure, and_then}
use murrmure.Kernel.Execute.{kind_text, returned, authorize, run_command, deny_policy}
use murrmure.Kernel.Replay.Logged.{Logged}
use murrmure.Kernel.Replay.Commits.{commit_denial-Logged}
use murrmure.Hub.Policy.{TokenRow, CommandContext, evaluate}
use murrmure.Hub.Policy.Required.{required_for}
use murrmure.Hub.Policy.Permits.{permits, evaluate-permits}

-- What `execute` hands to the port: the provenance and the kind, without a payload.
abbrev pub context : Provenance → CommandKind → CommandContext
context p kind = record { provenance = p; command_kind = kind_text kind; payload = none }

-- The capability that a command of the kernel requires; those on reactions require none.
abbrev pub needs : CommandKind → Option String
needs (aggregate_create _) = some "flow:run"
needs (state_transition _) = some "flow:run"
needs (event_append _) = some "event:emit"
needs (wait_register _) = some "space:read"
needs (wait_cancel _) = some "space:read"
needs (reaction_register _) = none
needs (reaction_disable _) = none
needs (reaction_replay _) = none

needs_lem : (kind : CommandKind) → required_for (kind_text kind) ≡ needs kind
needs_lem (aggregate_create _) = refl
needs_lem (state_transition _) = refl
needs_lem (event_append _) = refl
needs_lem (wait_register _) = refl
needs_lem (wait_cancel _) = refl
needs_lem (reaction_register _) = refl
needs_lem (reaction_disable _) = refl
needs_lem (reaction_replay _) = refl

-- The token of the credential permits the command.
abbrev pub permits_command : Dict String TokenRow → Provenance → CommandKind → Bool
permits_command tokens p kind =
    permits (lookup p.credential_id tokens) (context p kind) (needs kind)

and_then-world :
    {A B : Type 0} (f : A → B) (r : Result A × World) → (and_then r.0 r.1 (λ a. pure (f a))).1 ≡ r.1
and_then-world f (ok a, w) = refl
and_then-world f (rejected message, w) = refl

module _ (ports : Ports) (tokens : Dict String TokenRow) where
  -- The denial that the journal gets.
  abbrev pub denial_draft : CommandKind → Provenance → World → JournalEntryDraft
  denial_draft kind p w =
      let policy = ports.evaluate_policy p (kind_text kind) in
      build_denial_entry p (ports.ulid w.ids_taken) (ports.now_iso w.clock_read)
        EntryTypes.policy_denied (get_or policy.denial_code "policy_denied")
        (get_or policy.denial_message "Policy denied") false none none

  -- What becomes of a command that is permitted, or not.
  abbrev pub Served : (permitted : Bool) → CommandKind → Provenance → World → Type 0
  Served true kind p w = authorize ports kind p w ≡ run_command ports kind p w
  Served false kind p w =
      Logged (denial_draft kind p w) w.store.snapshots
        (record w { ids_taken = suc w.ids_taken; clock_read = suc w.clock_read })
        (authorize ports kind p w).1

  Served-allowed :
      (kind : CommandKind) (p : Provenance) (w : World) (b : Bool)
      → (ports.evaluate_policy p (kind_text kind)).allowed ≡ b
      → Served b kind p w
  unfolding authorize
  Served-allowed kind p w true h = rw h refl
  Served-allowed kind p w false h =
      let policy = ports.evaluate_policy p (kind_text kind) in
      rw h (
        rw (and_then-world returned (deny_policy ports p policy w)) (
          commit_denial-Logged ports p EntryTypes.policy_denied
            (get_or policy.denial_code "policy_denied")
            (get_or policy.denial_message "Policy denied") forbidden false none none w))

  -- The kernel's policy port is that of the hub. A command whose stored result is not replayed goes
  -- to its handler when the token permits it; otherwise exactly one entry is journaled, the denial
  -- policy_denied, and no snapshot changes.
  pub authorize-permits :
      (kind : CommandKind) (p : Provenance) (w : World)
      → evaluate tokens (context p kind) ≡ some (ports.evaluate_policy p (kind_text kind))
      → Served (permits_command tokens p kind) kind p w
  authorize-permits kind p w h = Served-allowed kind p w (permits_command tokens p kind) (
      evaluate-permits tokens (context p kind) (ports.evaluate_policy p (kind_text kind)) h
      ∙ ap (permits (lookup p.credential_id tokens) (context p kind)) (needs_lem kind))
