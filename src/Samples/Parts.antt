-- ===== src/Samples/Parts.antt =====
-- The theorems on single operations, at sample values.
use murrmure.Prelude.{
  String, All, ℕ, ◌≤◌, ◌<◌, ◌^◌, ◌≡◌, ◌≢◌, opt_str_eq, ap, refl, true, false, Option, none, some,
  find, length, [], ◌∷◌, ◌==◌, arith,
}
use murrmure.Dict.{string_key, nat_key, lookup}
use murrmure.Json.{field, str, end}
use murrmure.Text.{hash_text, hash_digits}
use murrmure.Text.Hash.{value_of, hash_text-bound, hash_digits-value}
use murrmure.Contracts.Results.{success, agent, active}
use murrmure.Contracts.Aggregates.{Aggregate}
use murrmure.Contracts.Journal.{JournalEntry}
use murrmure.Contracts.Journal.EntryTypes
use murrmure.Contracts.Waits.{WaitCondition, Conditions}
use murrmure.Store.State.{MemoryStoreState, create_memory_store_state}
use murrmure.Store.Transaction.{exists_already, insert_dedup, new_transaction}
use murrmure.Store.Commit.{commit, fresh_row, rollback}
use murrmure.Store.Port.{
  includes, claim_reaction_batch, claim_fanout_batch, ack_fanout, acquire_projection_lock,
  release_projection_lock,
}
use murrmure.Store.Monotone.{Reached, commit-Reached}
use murrmure.Store.Dedup.{claimed, insert_dedup-twice}
use murrmure.Store.Queue.{claim_reaction_batch-twice}
use murrmure.Contracts.Reactions.{ReactionQueueItem}
use murrmure.Store.Outbox.{
  is_leased, length-claim_fanout_batch, claim_fanout_batch-leaves, ack_fanout-claim,
}
use murrmure.Store.Locks.{acquire_projection_lock-excludes, release_projection_lock-frees}
use murrmure.Store.Rollback.{append_all, rollback-append_all}
use murrmure.Kernel.Entries.{build_entry, about}
use murrmure.Kernel.Executor.{find_matching_transition, find_legal_transitions_for_actor}
use mathlib.Core.List.{Permᴰ}
use murrmure.Kernel.Fold.{fold_journal_to_snapshot}
use murrmure.Kernel.Fold.Reordered.{fold_journal_to_snapshot_reordered}
use murrmure.Kernel.Legal.{IsFirst, find_matching_transition_lem, find_matching_transition-IsFirst}
use murrmure.Kernel.WaitMatch.{matches_wait_condition}
use murrmure.Kernel.Compound.{all_met, matches_wait_condition-all_of}
use murrmure.Kernel.Projections.{audit_tail_handler, dispatch_projection}
use murrmure.Kernel.Once.{dispatch_projection-twice}
use murrmure.Kernel.World.{initial_world}
use murrmure.Samples.{any_actor, ada, review_ref, review_rules, submit}

abbrev sample_aggregate : Aggregate
sample_aggregate = record {
  aggregate_id = "i";
  scope_id = "space";
  rule_ref = review_ref;
  state = "draft";
  metadata = end;
  revision = 0;
  status = active;
  created_at = "t";
  updated_at = "t";
}

abbrev sample_draft : murrmure.Contracts.Journal.JournalEntryDraft
sample_draft =
    build_entry (ada "c1") "e1" "t" EntryTypes.transition_applied success
      (field "to" (str "review") end) (about "i")

abbrev sample_entry : ℕ → JournalEntry
sample_entry seq = record {
  draft = sample_draft;
  allocated = record { seq = seq; scope_seq = some seq; aggregate_seq = some seq };
}

find_matching_transition_lem_example :
    find_matching_transition any_actor sample_aggregate "ada" (some agent) review_rules "submit"
    ≡ find
        (λ t. t.event == "submit")
        (find_legal_transitions_for_actor any_actor sample_aggregate "ada"
          (some agent)
          review_rules)
find_matching_transition_lem_example =
    find_matching_transition_lem any_actor sample_aggregate "ada" (some agent) review_rules "submit"

find_matching_transition-IsFirst_example :
    IsFirst any_actor sample_aggregate "ada"
      (some agent)
      "submit"
      review_rules.transitions
      (some submit)
unfolding find_matching_transition
find_matching_transition-IsFirst_example =
    find_matching_transition-IsFirst any_actor sample_aggregate "ada" (some agent) review_rules
      "submit"

-- The first of two conditions was met before, and the entry meets the second.
abbrev reviewed : Conditions
reviewed = Conditions.cons (WaitCondition.state "review") Conditions.nil

matches_wait_condition-all_of_example :
    (matches_wait_condition
      (WaitCondition.compound
        (Conditions.cons (WaitCondition.state "done") reviewed)
        Conditions.missing)
      (sample_entry 2)
      (some (0 ∷ []))).matched
    ≡ all_met (0 ∷ []) (sample_entry 2) 0 (Conditions.cons (WaitCondition.state "done") reviewed)
matches_wait_condition-all_of_example =
    matches_wait_condition-all_of (WaitCondition.state "done") reviewed Conditions.missing
      (sample_entry 2) (some (0 ∷ [])) tt

abbrev sample_store : MemoryStoreState
sample_store = record create_memory_store_state {
  journal = sample_entry 1 ∷ sample_entry 2 ∷ [];
  outbox =
      (1, record (fresh_row 1) { lease_owner = some "other"; lease_expires_at = some "z" })
      ∷ (2, fresh_row 2)
      ∷ [];
  next_seq = 3;
}

acquire_projection_lock-excludes_example :
    let held = (acquire_projection_lock "a" "m" "audit" "one" sample_store).1 in
    acquire_projection_lock "b" "n" "audit" "two" held ≡ (false, held)
unfolding acquire_projection_lock lookup
acquire_projection_lock-excludes_example =
    acquire_projection_lock-excludes sample_store "audit" "one" "two" "a" "b" "m" "n" refl refl refl

release_projection_lock-frees_example :
    let held = (acquire_projection_lock "a" "m" "audit" "one" sample_store).1 in
    (acquire_projection_lock "b" "n" "audit" "two" (release_projection_lock "audit" "one" held)).0
    ≡ true
unfolding acquire_projection_lock lookup
release_projection_lock-frees_example =
    release_projection_lock-frees sample_store "audit" "one" "two" "a" "b" "m" "n" refl

rollback-append_all_example :
    let after = append_all (sample_draft ∷ sample_draft ∷ []) sample_store new_transaction in
    let restored = rollback after.2 after.1 in
    (restored.journal ≡ sample_store.journal) × (restored.next_seq ≡ sample_store.next_seq)
rollback-append_all_example = rollback-append_all (sample_draft ∷ sample_draft ∷ []) sample_store

length-claim_fanout_batch_example : length (claim_fanout_batch 1 "me" "a" "m" sample_store).0 ≤ 1
length-claim_fanout_batch_example = length-claim_fanout_batch 1 "me" "a" "m" sample_store

claim_fanout_batch-leaves_example :
    lookup 1 (claim_fanout_batch 5 "me" "a" "m" sample_store).1.outbox
    ≡ some (record (fresh_row 1) { lease_owner = some "other"; lease_expires_at = some "z" })
unfolding lookup
claim_fanout_batch-leaves_example =
    claim_fanout_batch-leaves 5 "me" "a" "m" sample_store 1
      (record (fresh_row 1) { lease_owner = some "other"; lease_expires_at = some "z" }) refl
      (is_leased "z" refl refl refl other)
  where
    different : false ≢ true
    different e = cc

    owner : String → Option String
    owner name = some name

    other : owner "other" ≢ owner "me"
    other e = different (ap (λ o. opt_str_eq o (some "me")) e)

ack_fanout-claim_example :
    let acked = ack_fanout "b" 2 sample_store in
    lookup 2 (claim_fanout_batch 5 "me" "a" "m" acked).1.outbox ≡ lookup 2 acked.outbox
unfolding lookup
ack_fanout-claim_example =
    ack_fanout-claim 5 "me" "a" "b" "m" sample_store 2 (fresh_row 2) refl refl

dispatch_projection-twice_example :
    let once = (dispatch_projection "audit" audit_tail_handler (sample_entry 1) initial_world).1 in
    (dispatch_projection "audit" audit_tail_handler (sample_entry 1) once).1.store.projections
    ≡ once.store.projections
dispatch_projection-twice_example =
    dispatch_projection-twice "audit" audit_tail_handler (sample_entry 1) initial_world

hash_text-bound_example : hash_text "reaction|space|entry" < 2 ^ 32
hash_text-bound_example = hash_text-bound "reaction|space|entry"

hash_digits-value_example :
    (length (hash_digits 0xdeadbeef) ≡ 16) × (value_of 16 (hash_digits 0xdeadbeef) ≡ 0xdeadbeef)
hash_digits-value_example = hash_digits-value 0xdeadbeef (omega arith)

-- Two entries, given in the wrong order.
fold_journal_to_snapshot_reordered_example :
    fold_journal_to_snapshot (sample_entry 2 ∷ sample_entry 1 ∷ []) "i" none
    ≡ fold_journal_to_snapshot (sample_entry 1 ∷ sample_entry 2 ∷ []) "i" none
fold_journal_to_snapshot_reordered_example =
    fold_journal_to_snapshot_reordered (sample_entry 2 ∷ sample_entry 1 ∷ [])
      (sample_entry 1 ∷ sample_entry 2 ∷ []) "i" none (Permᴰ.swap refl refl)
      ((two_one, tt), (tt, tt))
  where
    two_one : (sample_entry 2).seq ≢ (sample_entry 1).seq
    two_one e = omega (arith, e)

commit-Reached_example : Reached 4 (
    lookup "audit:space:i"
      (commit
        (record new_transaction {
          projection_ops =
              record {
                name = "audit";
                scope_id = "space";
                aggregate_id = some "i";
                seq = 3;
                state = end;
              }
              ∷ [];
        })
        (record sample_store {
          projections = ("audit:space:i", record { seq = 4; state = end }) ∷ [];
        })).projections)
unfolding lookup
commit-Reached_example =
    commit-Reached
      (record new_transaction {
        projection_ops =
            record {
              name = "audit";
              scope_id = "space";
              aggregate_id = some "i";
              seq = 3;
              state = end;
            }
            ∷ [];
      })
      (record sample_store {
        projections = ("audit:space:i", record { seq = 4; state = end }) ∷ [];
      })
      "audit:space:i" 4 four
  where
    four : 4 ≤ 4
    four = omega arith

insert_dedup-twice_example :
    let once = claimed "a" "key" "m" sample_store in
    ((insert_dedup "b" "key" "n" once new_transaction).0 ≡ exists_already)
    × ((claimed "b" "key" "n" once).dedup ≡ once.dedup)
unfolding insert_dedup lookup
insert_dedup-twice_example = insert_dedup-twice "a" "b" "key" "m" "n" sample_store refl refl refl

abbrev queued : String → ReactionQueueItem
queued queue_id = record {
  queue_id = queue_id;
  reaction_id = "r";
  entry_id = "e1";
  partition_key = "space";
  fingerprint = "0";
  attempt_no = 1;
  entry = sample_entry 1;
  enqueued_at = "t";
}

abbrev queue_store : MemoryStoreState
queue_store = record sample_store { reaction_queue = queued "q1" ∷ queued "q2" ∷ queued "q3" ∷ [] }

claim_reaction_batch-twice_example :
    let first = claim_reaction_batch 2 queue_store in
    let second = claim_reaction_batch 2 first.1 in
    All (λ q. includes q.queue_id first.1.reaction_queue_claimed ≡ true) first.0
    × All (λ q. includes q.queue_id first.1.reaction_queue_claimed ≡ false) second.0
    × (length second.0 ≤ 2)
claim_reaction_batch-twice_example = claim_reaction_batch-twice 2 2 queue_store
