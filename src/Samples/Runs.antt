-- ===== src/Samples/Runs.antt =====
-- The theorems on whole commands, at the sample commands.
use murrmure.Prelude.{false, suc, ◌≡◌, ◌≤◌, refl, true, none, some, length, [], ◌∷◌, ◌++◌, arith}
use murrmure.Prelude.Int.{pos}
use murrmure.Dict.{string_key, lookup, insert}
use murrmure.Json.{field, str, end}
use murrmure.Contracts.Results.{not_found, success, denial}
use murrmure.Contracts.Results.DenialCodes
use murrmure.Contracts.Journal.EntryTypes
use murrmure.Contracts.Aggregates.{Aggregate}
use murrmure.Contracts.Results.{CommandResult, http_ok}
use murrmure.Store.Transaction.{append_entry}
use murrmure.Kernel.Entries.{build_entry, build_denial_entry, about}
use murrmure.Kernel.Fold.{fold_journal_to_snapshot}
use murrmure.Kernel.Fold.Order.{Numbered}
use murrmure.Kernel.Commit.{commit_success, commit_denial}
use murrmure.Kernel.Fanout.{dispatch_fanout}
use murrmure.Kernel.Projections.{audit_tail_handler}
use murrmure.Kernel.Executor.{find_matching_transition, apply_transition}
use murrmure.Kernel.Handlers.Transitions.{perform_transition, revision_message}
use murrmure.Kernel.Execute.{append_space_journal, execute, returned}
use murrmure.Kernel.Requests.{history}
use murrmure.Kernel.Verify.{verify_fold}
use murrmure.Kernel.World.{Ports, ok, initial_world}
use murrmure.Kernel.Frame.Calculus.{Frame}
use murrmure.Kernel.Frame.Fanout.{Frames-dispatch_fanout}
use murrmure.Kernel.Replay.Logged.{Logged, after_journal}
use murrmure.Kernel.Replay.Invariant.{Inv, initial-Inv}
use murrmure.Kernel.Replay.Execute.{execute-Keeps}
use murrmure.Kernel.Replay.History.{snapshot-history, journal-history}
use murrmure.Kernel.Replay.Verify.{verify_fold-history, execute-replayed, perform_transition-stale}
use murrmure.Kernel.Replay.Remembered.{commit_denial-stored}
use murrmure.Kernel.Replay.Marked.{IsReplay}
use murrmure.Kernel.Replay.Repeated.{execute-denied_twice}
use murrmure.Kernel.Replay.Conflict.{commit_success-conflict, conflict_draft}
use murrmure.Samples.{
  sample_ports, sample_requests, sample_world, marks, marks-injective, ada, create_first,
  submit_command, submit, review_rules,
}

snapshot-history_example :
    lookup (marks 0) (history sample_ports sample_requests initial_world).store.snapshots
    ≡ fold_journal_to_snapshot
        (history sample_ports sample_requests initial_world).store.journal
        (marks 0)
        none
snapshot-history_example = snapshot-history sample_ports marks-injective sample_requests (marks 0)

journal-history_example :
    Numbered 1 (history sample_ports sample_requests initial_world).store.journal
    × ((history sample_ports sample_requests initial_world).store.next_seq
        ≡ suc (length (history sample_ports sample_requests initial_world).store.journal))
journal-history_example = journal-history sample_ports marks-injective sample_requests

execute-Keeps_example : Inv sample_ports (execute sample_ports create_first initial_world).1
execute-Keeps_example =
    execute-Keeps sample_ports marks-injective create_first initial_world (initial-Inv sample_ports)

verify_fold-history_example :
    (verify_fold (marks 0) (history sample_ports sample_requests initial_world)).0 ≡ ok true
unfolding history execute append_space_journal lookup audit_tail_handler insert
    find_matching_transition apply_transition
verify_fold-history_example =
    verify_fold-history sample_ports marks-injective sample_requests (marks 0) short
  where
    short : length (history sample_ports sample_requests initial_world).store.journal ≤ 1000
    short = omega arith

-- What the first command answered.
abbrev created : CommandResult
created = record {
  outcome = success;
  http_semantic = http_ok;
  code = "aggregate_created";
  body =
      field "aggregate_id" (str "i")
        (field "state" (str "draft") (field "revision" (murrmure.Json.num 0) end));
  journal_entry_id = some "ii";
  seq = some 1;
}

execute-replayed_example :
    (answer : CommandResult) × ((execute sample_ports create_first sample_world).0
      ≡ ok (returned answer))
    × IsReplay created answer
    × Frame sample_world (execute sample_ports create_first sample_world).1
unfolding history execute append_space_journal lookup audit_tail_handler insert
    find_matching_transition apply_transition
execute-replayed_example =
    execute-replayed sample_ports create_first "c1" created sample_world refl refl refl

Frames-dispatch_fanout_example :
    Frame sample_world
      (dispatch_fanout sample_ports sample_world.store.journal none none sample_world).1
Frames-dispatch_fanout_example =
    Frames-dispatch_fanout sample_ports sample_world.store.journal none none sample_world

-- The aggregate as it was before the second command.
abbrev draft_aggregate : Aggregate
draft_aggregate = record {
  aggregate_id = "i";
  scope_id = "space";
  rule_ref = murrmure.Samples.review_ref;
  state = "draft";
  metadata = end;
  revision = 0;
  status = murrmure.Contracts.Results.active;
  created_at = "2026-01-01T00:00:00Z";
  updated_at = "2026-01-01T00:00:00Z";
}

-- The second command again, when the aggregate's revision is 1.
perform_transition-stale_example :
    Logged
      (build_denial_entry
        (ada "c3")
        (marks sample_world.ids_taken)
        "2026-01-01T00:00:00Z"
        EntryTypes.revision_conflict
        DenialCodes.revision_conflict
        (revision_message (pos 0) 1)
        true
        none
        (some "i"))
      sample_world.store.snapshots
      (record sample_world {
        ids_taken = suc sample_world.ids_taken;
        clock_read = suc sample_world.clock_read;
      })
      (perform_transition sample_ports
        (ada "c3")
        submit_command
        (record draft_aggregate { revision = 1 })
        review_rules
        submit
        sample_world).1
perform_transition-stale_example =
    perform_transition-stale sample_ports (ada "c3") submit_command
      (record draft_aggregate { revision = 1 }) review_rules submit sample_world refl

-- A second creation of the same aggregate, which expects that there is none.
abbrev late_draft : murrmure.Contracts.Journal.JournalEntryDraft
late_draft =
    build_entry (ada "c3") "late" "2026-01-01T00:00:00Z" EntryTypes.aggregate_created success end
      (about "i")

commit_success-conflict_example :
    let w' =
      (commit_success sample_ports
        (ada "c3")
        late_draft
        draft_aggregate
        (murrmure.Prelude.Int.negsuc 0)
        "aggregate_created"
        end
        sample_world).1 in
    (w'.store.journal
      ≡ sample_world.store.journal
        ++ append_entry late_draft sample_world.store
          ∷ append_entry
              (conflict_draft sample_ports (ada "c3") draft_aggregate sample_world)
              (after_journal late_draft sample_world).store
          ∷ [])
    × (w'.store.snapshots ≡ sample_world.store.snapshots)
unfolding history execute append_space_journal lookup audit_tail_handler insert
    find_matching_transition apply_transition
commit_success-conflict_example =
    commit_success-conflict sample_ports (ada "c3") late_draft draft_aggregate
      (murrmure.Prelude.Int.negsuc 0) "aggregate_created" end sample_world refl

-- A policy that allows nothing.
abbrev strict_ports : Ports
strict_ports = record sample_ports {
  evaluate_policy = λ p kind. record { allowed = false; denial_code = none; denial_message = none };
}

execute-denied_twice_example :
    let first = execute strict_ports create_first initial_world in
    let again = execute strict_ports create_first first.1 in
    (result : CommandResult) × (answer : CommandResult) × (first.0 ≡ ok (returned result))
    × (result.outcome ≡ denial)
    × (result.code ≡ "policy_denied")
    × (again.0 ≡ ok (returned answer))
    × IsReplay result answer
    × Frame first.1 again.1
unfolding lookup
execute-denied_twice_example =
    execute-denied_twice strict_ports create_first "c1" initial_world refl refl refl refl

commit_denial-stored_example :
    let r =
      commit_denial sample_ports
        (ada "c1")
        EntryTypes.transition_denied
        DenialCodes.not_found
        "Aggregate not found"
        not_found
        false
        none
        (some "i")
        initial_world in
    (result : CommandResult) × (r.0 ≡ ok result)
    × (result.outcome ≡ denial)
    × (result.code ≡ DenialCodes.not_found)
    × (lookup "c1" r.1.store.idempotency ≡ some result)
unfolding lookup
commit_denial-stored_example =
    commit_denial-stored sample_ports (ada "c1") EntryTypes.transition_denied DenialCodes.not_found
      "Aggregate not found" not_found false none (some "i") "c1" initial_world refl refl
