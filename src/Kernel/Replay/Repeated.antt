-- ===== src/Kernel/Replay/Repeated.antt =====
-- A command that the policy denies, sent twice.
use murrmure.Prelude.{
  String, ◌≡◌, refl, sym, ap, ◌∙◌, subst, false, Option, none, some, get_or, non_empty,
}
use murrmure.Dict.{string_key, lookup}
use murrmure.Contracts.Results.{Provenance, CommandResult, forbidden, denial}
use murrmure.Contracts.Results.DenialCodes
use murrmure.Contracts.Journal.EntryTypes
use murrmure.Contracts.Commands.{KernelCommand, CommandKind}
use murrmure.Kernel.Execute.{
  Reply, returned, kind_text, with_command_id, ensure_provenance, deny_policy, authorize,
  find_replay, replay_or_run, execute,
}
use murrmure.Kernel.World.{World, Ports, Result, ok, M, pure, ◌>>=◌, and_then, run_in_transaction}
use murrmure.Kernel.Replay.Remembered.{commit_denial-stored}
use murrmure.Kernel.Replay.Verify.{execute-replayed}
use murrmure.Kernel.Replay.Marked.{IsReplay}
use murrmure.Kernel.Frame.Calculus.{Frame}

module _ (ports : Ports) where
  abbrev denial_reply : CommandKind → Provenance → M Reply
  denial_reply kind p =
      deny_policy ports p (ports.evaluate_policy p (kind_text kind))
      >>= (λ result. pure (returned result))

  abbrev Denies : CommandKind → Provenance → World → Option String → Type 0
  Denies kind p w o =
      (find_replay ports o >>= replay_or_run ports kind p) w
      ≡ denial_reply kind p (find_replay ports o w).1

  new-Denies :
      (kind : CommandKind) (p : Provenance) (id : String) (w : World)
      → lookup id w.store.idempotency ≡ none
      → (ports.evaluate_policy p (kind_text kind)).allowed ≡ false
      → Denies kind p w (some id)
  unfolding run_in_transaction authorize
  new-Denies kind p id w fresh denied = rw fresh (rw denied refl)

  own_provenance :
      (p : Provenance) (id : String)
      → p.command_id ≡ some id
      → with_command_id ports p p.command_id ≡ pure p
  own_provenance p id own = subst (λ o. with_command_id ports p o ≡ pure p) (sym own) refl

  execute-denied :
      (command : KernelCommand) (id : String) (w : World)
      → command.provenance.command_id ≡ some id
      → non_empty (some id) ≡ some id
      → lookup id w.store.idempotency ≡ none
      → (ports.evaluate_policy command.provenance (kind_text command.kind)).allowed ≡ false
      → execute ports command w
        ≡ denial_reply command.kind command.provenance
            (find_replay ports (non_empty command.provenance.command_id) w).1
  unfolding execute ensure_provenance
  execute-denied command id w own given fresh denied =
      ap
        (λ (m : M Provenance).
          (m >>= (λ p.
              find_replay ports (non_empty p.command_id) >>= replay_or_run ports command.kind p))
            w)
        (own_provenance command.provenance id own)
      ∙ subst (Denies command.kind command.provenance w) (sym (ap non_empty own ∙ given))
          (new-Denies command.kind command.provenance id w fresh denied)

  -- A command with a new id that the policy denies is answered with a denial, under the policy's
  -- code or else policy_denied. When it is sent again, the answer is the same denial marked as a
  -- replay, and journal, snapshots and numbering stay as they are.
  pub execute-denied_twice :
      (command : KernelCommand) (id : String) (w : World)
      → command.provenance.command_id ≡ some id
      → non_empty (some id) ≡ some id
      → lookup id w.store.idempotency ≡ none
      → (ports.evaluate_policy command.provenance (kind_text command.kind)).allowed ≡ false
      → let first = execute ports command w in
        let again = execute ports command first.1 in
        (result : CommandResult) × (answer : CommandResult) × (first.0 ≡ ok (returned result))
        × (result.outcome ≡ denial)
        × (result.code
            ≡ get_or
                (ports.evaluate_policy command.provenance (kind_text command.kind)).denial_code
                "policy_denied")
        × (again.0 ≡ ok (returned answer))
        × IsReplay result answer
        × Frame first.1 again.1
  unfolding run_in_transaction
  execute-denied_twice command id w own given fresh denied =
      let p = command.provenance in
      let policy = ports.evaluate_policy p (kind_text command.kind) in
      let found = ap non_empty own ∙ given in
      let w1 = (find_replay ports (some id) w).1 in
      let (result, answered, outcome, code, stored) =
        commit_denial-stored ports p EntryTypes.policy_denied
          (get_or policy.denial_code DenialCodes.policy_denied)
          (get_or policy.denial_message "Policy denied") forbidden false none none id w1 found
          fresh in
      let first : execute ports command w
          ≡ (ok (returned result), (deny_policy ports p policy w1).1) =
        execute-denied command id w own given fresh denied
        ∙ (ap (λ o. denial_reply command.kind p (find_replay ports o w).1) found
            ∙ ap
                (λ (r : Result CommandResult).
                  and_then r (deny_policy ports p policy w1).1 (λ result. pure (returned result)))
                answered) in
      let (answer, again, marked, frame) =
        execute-replayed ports command id result (deny_policy ports p policy w1).1 own given
          stored in
      rw first (result, answer, refl, outcome, code, again, marked, frame)
