-- ===== src/Kernel/Fanout.antt =====
-- packages/runtime-kernel/src/fanout/dispatch.ts: what follows from a committed entry.
use murrmure.Prelude.{
  ℕ, ◌*◌, String, Bool, false, not, Option, none, some, List, if◌then◌else◌, non_empty, is_some,
}
use murrmure.Dict.{string_key, lookup, insert}
use murrmure.Contracts.Results.{CommandResult}
use murrmure.Contracts.Journal.{JournalEntry}
use murrmure.Contracts.Waits.{WaitRow, WaitResolution, resolved, matched, denied}
use murrmure.Contracts.Reactions.{
  ReactionSpec, ReactionQueueItem, DeliveryLogEntry, DeliveryOutcome, delivered, dedup_skipped,
  failed,
}
use murrmure.Store.Transaction.{
  Insertion, inserted, exists_already, insert_dedup, append_delivery_log, enqueue_reaction,
  put_wait,
}
use murrmure.Store.Port.{
  list_pending_waits, list_reactions, claim_reaction_batch, complete_reaction,
}
use murrmure.Kernel.Registry.{resolve}
use murrmure.Kernel.WaitMatch.{matches_wait_condition}
use murrmure.Kernel.ReactionMatch.{matches_reaction, dedup_fingerprint, partition_key}
use murrmure.Kernel.Projections.{dispatch_projection}
use murrmure.Kernel.World.{
  Ports, ActionOutcome, action_success, action_failure, ok, M, pure, gets, modify, access, in_tx,
  run_in_transaction, for_each, on_registry, ulid, date_after, invoke_action, ◌>>=◌, ◌>>◌,
}

-- `notify.resolveWait`, which the hub connects to the registry (packages/hub-core/src/kernel.ts).
abbrev pub notify_wait : String → WaitResolution → M (Unit {0})
notify_wait wait_id resolution = on_registry (λ r. (tt, resolve wait_id resolution r))

abbrev pub mark_resolved : WaitRow → M (Unit {0})
mark_resolved wait = run_in_transaction (in_tx (put_wait (record wait { status = resolved })))

abbrev pub mark_found : Option WaitRow → M (Unit {0})
mark_found none = pure tt
mark_found (some wait) = mark_resolved wait

unfoldable pub resolve_bound_wait : String → CommandResult → M (Unit {0})
unfolding run_in_transaction put_wait resolve
resolve_bound_wait wait_id denial = do
  notify_wait wait_id
      (record { wait_id = wait_id; status = denied; entry = none; denial = some denial })
  found ← run_in_transaction (gets (λ s. lookup wait_id s.waits))
  mark_found found

unfoldable pub resolve_wait : WaitRow → WaitResolution → M (Unit {0})
unfolding run_in_transaction put_wait resolve
resolve_wait wait resolution = do notify_wait wait.wait_id resolution; mark_resolved wait

-- The progress of a wait is stored after each call that returns one.
abbrev pub get_progress : String → M (Option (List ℕ))
get_progress wait_id w = (ok (lookup wait_id w.compound_progress), w)

abbrev pub set_progress : String → Option (List ℕ) → M (Unit {0})
set_progress wait_id none w = pure tt w
set_progress wait_id (some progress) w =
    (ok tt, record w { compound_progress = insert wait_id progress w.compound_progress })

abbrev pub matched_by : JournalEntry → WaitRow → WaitResolution
matched_by entry wait = record {
  wait_id = wait.wait_id;
  status = matched;
  entry = some entry;
  denial = none;
}

-- A wait is matched with its progress so far, and resolved if it is satisfied.
unfoldable pub check_wait : JournalEntry → WaitRow → M (Unit {0})
unfolding resolve_wait
check_wait entry wait = do
  progress ← get_progress wait.wait_id
  let result = matches_wait_condition wait.condition entry progress
  set_progress wait.wait_id result.progress
  if result.matched then resolve_wait wait (matched_by entry wait) else pure tt

-- The body of the loop over the pending waits. A denial resolves every wait that is bound.
unfoldable pub visit_wait : Option CommandResult → JournalEntry → WaitRow → M (Unit {0})
unfolding resolve_bound_wait check_wait
visit_wait none entry wait = check_wait entry wait
visit_wait (some result) entry wait =
    if is_some (non_empty wait.bound_command_id)
    then resolve_bound_wait wait.wait_id result
    else check_wait entry wait

abbrev pub queue_item : String → String → ReactionSpec → JournalEntry → ReactionQueueItem
queue_item queue_id fingerprint reaction entry = record {
  queue_id = queue_id;
  reaction_id = reaction.reaction_id;
  entry_id = entry.entry_id;
  partition_key = partition_key reaction entry;
  fingerprint = fingerprint;
  attempt_no = 1;
  entry = entry;
  enqueued_at = entry.ts;
}

abbrev pub delivery : ReactionSpec → JournalEntry → String → DeliveryOutcome → DeliveryLogEntry
delivery reaction entry fingerprint outcome = record {
  entry_id = entry.entry_id;
  reaction_id = reaction.reaction_id;
  attempt_no = 1;
  dedup_key = fingerprint;
  outcome = outcome;
  ts = entry.ts;
}

abbrev pub is_duplicate : ReactionSpec → Insertion → Bool
is_duplicate reaction inserted = false
is_duplicate reaction exists_already = reaction.dedup.required

abbrev pub enqueue_or_skip :
    String → String → Insertion → ReactionSpec → JournalEntry → M (Unit {0})
enqueue_or_skip queue_id fingerprint result reaction entry =
    if is_duplicate reaction result
    then in_tx (append_delivery_log (delivery reaction entry fingerprint dedup_skipped))
    else in_tx (enqueue_reaction (queue_item queue_id fingerprint reaction entry))

-- The body of the transaction.
abbrev pub claim_and_enqueue :
    Ports → (fingerprint expires queue_id : String) → ReactionSpec → JournalEntry → M (Unit {0})
claim_and_enqueue ports fingerprint expires queue_id reaction entry = do
  now ← date_after ports 0
  result ← in_tx (insert_dedup now fingerprint expires)
  enqueue_or_skip queue_id fingerprint result reaction entry

unfoldable pub enqueue_reaction_if_needed : Ports → ReactionSpec → JournalEntry → M (Unit {0})
unfolding run_in_transaction insert_dedup append_delivery_log enqueue_reaction ulid date_after
enqueue_reaction_if_needed ports reaction entry = do
  let fingerprint = dedup_fingerprint reaction entry
  expires ← date_after ports (reaction.dedup.window_seconds * 1000)
  queue_id ← ulid ports
  run_in_transaction (claim_and_enqueue ports fingerprint expires queue_id reaction entry)

unfoldable pub visit_reaction : Ports → JournalEntry → ReactionSpec → M (Unit {0})
unfolding enqueue_reaction_if_needed
visit_reaction ports entry reaction =
    if not (matches_reaction reaction entry)
    then pure tt
    else enqueue_reaction_if_needed ports reaction entry

abbrev pub outcome_of : ActionOutcome → DeliveryOutcome
outcome_of action_success = delivered
outcome_of action_failure = failed

abbrev pub item_delivery : ReactionQueueItem → DeliveryOutcome → DeliveryLogEntry
item_delivery item outcome = record {
  entry_id = item.entry_id;
  reaction_id = item.reaction_id;
  attempt_no = item.attempt_no;
  dedup_key = item.fingerprint;
  outcome = outcome;
  ts = item.entry.ts;
}

abbrev pub deliver_to : Ports → ReactionQueueItem → Option ReactionSpec → M (Unit {0})
deliver_to ports item none = modify (complete_reaction item.queue_id (item_delivery item failed))
deliver_to ports item (some reaction) = do
  outcome ← invoke_action ports reaction.action (record {
    entry = item.entry;
    reaction_id = reaction.reaction_id;
    attempt_no = item.attempt_no;
  })
  modify (complete_reaction item.queue_id (item_delivery item (outcome_of outcome)))

unfoldable pub deliver_item : Ports → ReactionQueueItem → M (Unit {0})
unfolding complete_reaction invoke_action
deliver_item ports item = do
  found ← gets (λ s. lookup item.reaction_id s.reactions)
  deliver_to ports item found

unfoldable pub drain_reaction_queue : Ports → M (Unit {0})
unfolding claim_reaction_batch deliver_item for_each
drain_reaction_queue ports = do
  batch ← access (claim_reaction_batch 100)
  for_each (deliver_item ports) batch

-- The three loops for one entry.
unfoldable pub fan_out : Ports → Option CommandResult → JournalEntry → M (Unit {0})
unfolding list_pending_waits list_reactions visit_wait visit_reaction dispatch_projection for_each
fan_out ports denial entry = do
  waits ← gets (list_pending_waits entry.scope_id entry.aggregate_id)
  for_each (visit_wait denial entry) waits
  reactions ← gets (list_reactions entry.scope_id)
  for_each (visit_reaction ports entry) reactions
  for_each (λ h. dispatch_projection h.0 h.1 entry) ports.projection_handlers

abbrev pub either_entry : Option String → Option CommandResult → M (Unit {0}) → M (Unit {0})
either_entry (some wait_id) (some result) other = resolve_bound_wait wait_id result
either_entry _ _ other = other

-- The body of the loop over the entries: a denied command with a wait of its own resolves that
-- wait, and nothing else is done for the entry.
unfoldable pub visit_entry :
    Ports → Option String → Option CommandResult → JournalEntry → M (Unit {0})
unfolding fan_out resolve_bound_wait
visit_entry ports bound_wait_id denial entry =
    either_entry (non_empty bound_wait_id) denial (fan_out ports denial entry)

-- `boundCommandDenied` holds exactly if there is a `denialResult`.
unfoldable pub dispatch_fanout :
    Ports → List JournalEntry → Option String → Option CommandResult → M (Unit {0})
unfolding visit_entry drain_reaction_queue for_each
dispatch_fanout ports entries bound_wait_id denial = do
  for_each (visit_entry ports bound_wait_id denial) entries
  drain_reaction_queue ports
