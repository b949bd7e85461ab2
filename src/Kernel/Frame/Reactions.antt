-- ===== src/Kernel/Frame/Reactions.antt =====
-- The reactions of a fan-out, and the drained queue, keep the frame.
use murrmure.Prelude.{ℕ, ◌*◌, String, refl, not, Option, none, some}
use murrmure.Dict.{string_key, nat_key, lookup}
use murrmure.Contracts.Journal.{JournalEntry}
use murrmure.Contracts.Reactions.{ReactionSpec, ReactionQueueItem, DeliveryLogEntry, dedup_skipped}
use murrmure.Store.State.{MemoryStoreState}
use murrmure.Store.Transaction.{Insertion, insert_dedup, append_delivery_log, enqueue_reaction}
use murrmure.Store.Port.{claim_reaction_batch, complete_reaction}
use murrmure.Kernel.ReactionMatch.{matches_reaction, dedup_fingerprint}
use murrmure.Kernel.Fanout.{
  claim_and_enqueue, deliver_to, enqueue_or_skip, enqueue_reaction_if_needed, visit_reaction,
  is_duplicate, item_delivery, outcome_of, deliver_item, drain_reaction_queue, queue_item, delivery,
}
use murrmure.Kernel.World.{
  Ports, ActionContext, pure, ◌>>=◌, gets, modify, access, in_tx, run_in_transaction, for_each,
  ulid, date_after, invoke_action,
}
use murrmure.Kernel.Frame.Calculus.{
  Frames, Quiet, Frames-pure, Frames->>=, Frames-for_each, Frames-if, Quiet->>=, Quiet-if,
  Frames-run_in_transaction,
}
use murrmure.Kernel.Frame.Store.{
  SameCore, Quiet-in_tx, insert_dedup-Leaves, append_delivery_log-Leaves, enqueue_reaction-Leaves,
  Frames-gets, Frames-modify, Frames-access, Quiet-date_after, Frames-date_after, Frames-ulid,
  Frames-invoke_action,
}

complete_reaction-SameCore :
    (queue_id : String) (d : DeliveryLogEntry) (s : MemoryStoreState)
    → SameCore s (complete_reaction queue_id d s)
unfolding complete_reaction
complete_reaction-SameCore queue_id d s = record {
  journal = refl;
  snapshots = refl;
  next_seq = refl;
}

claim_reaction_batch-SameCore :
    (limit : ℕ) (s : MemoryStoreState) → SameCore s (claim_reaction_batch limit s).1
unfolding claim_reaction_batch
claim_reaction_batch-SameCore limit s = record { journal = refl; snapshots = refl; next_seq = refl }

Quiet-enqueue_or_skip :
    (queue_id fingerprint : String) (result : Insertion) (reaction : ReactionSpec)
    (entry : JournalEntry)
    → Quiet (enqueue_or_skip queue_id fingerprint result reaction entry)
Quiet-enqueue_or_skip queue_id fingerprint result reaction entry =
    Quiet-if (is_duplicate reaction result)
      (in_tx (append_delivery_log (delivery reaction entry fingerprint dedup_skipped)))
      (in_tx (enqueue_reaction (queue_item queue_id fingerprint reaction entry)))
      (Quiet-in_tx _ (append_delivery_log-Leaves _)) (Quiet-in_tx _ (enqueue_reaction-Leaves _))

module _ (ports : Ports) where
  Quiet-claim_and_enqueue :
      (fingerprint expires queue_id : String) (reaction : ReactionSpec) (entry : JournalEntry)
      → Quiet (claim_and_enqueue ports fingerprint expires queue_id reaction entry)
  Quiet-claim_and_enqueue fingerprint expires queue_id reaction entry =
      let finish =
        λ (result : Insertion). enqueue_or_skip queue_id fingerprint result reaction entry in
      let claim = λ (now : String). in_tx (insert_dedup now fingerprint expires) in
      Quiet->>= (date_after ports 0) (λ now. claim now >>= finish) (Quiet-date_after ports 0)
        (λ now.
          Quiet->>= (claim now) finish (Quiet-in_tx _ (insert_dedup-Leaves now _ _))
            (λ result. Quiet-enqueue_or_skip queue_id fingerprint result reaction entry))

  Frames-enqueue_reaction_if_needed :
      (reaction : ReactionSpec) (entry : JournalEntry)
      → Frames (enqueue_reaction_if_needed ports reaction entry)
  unfolding enqueue_reaction_if_needed
  Frames-enqueue_reaction_if_needed reaction entry =
      let ms = reaction.dedup.window_seconds * 1000 in
      let tx = λ (expires queue_id : String). run_in_transaction (
        claim_and_enqueue ports (dedup_fingerprint reaction entry) expires queue_id reaction
          entry) in
      Frames->>= (date_after ports ms) (λ expires. ulid ports >>= tx expires)
        (Frames-date_after ports ms)
        (λ expires.
          Frames->>= (ulid ports) (tx expires) (Frames-ulid ports)
            (λ queue_id. Frames-run_in_transaction _ (Quiet-claim_and_enqueue _ _ _ _ _)))

  pub Frames-visit_reaction :
      (entry : JournalEntry) (reaction : ReactionSpec)
      → Frames (visit_reaction ports entry reaction)
  unfolding visit_reaction
  Frames-visit_reaction entry reaction =
      Frames-if (not (matches_reaction reaction entry)) (pure tt)
        (enqueue_reaction_if_needed ports reaction entry) (Frames-pure tt)
        (Frames-enqueue_reaction_if_needed reaction entry)

  Frames-deliver_to :
      (item : ReactionQueueItem) (o : Option ReactionSpec) → Frames (deliver_to ports item o)
  Frames-deliver_to item none = Frames-modify _ (complete_reaction-SameCore _ _)
  Frames-deliver_to item (some reaction) =
      let ctx : ActionContext = record {
        entry = item.entry;
        reaction_id = reaction.reaction_id;
        attempt_no = item.attempt_no;
      } in
      Frames->>= (invoke_action ports reaction.action ctx)
        (λ outcome.
          modify (complete_reaction item.queue_id (item_delivery item (outcome_of outcome))))
        (Frames-invoke_action ports reaction.action ctx)
        (λ outcome. Frames-modify _ (complete_reaction-SameCore _ _))

  Frames-deliver_item : (item : ReactionQueueItem) → Frames (deliver_item ports item)
  unfolding deliver_item
  Frames-deliver_item item =
      Frames->>= (gets (λ s. lookup item.reaction_id s.reactions)) (deliver_to ports item)
        (Frames-gets (λ s. lookup item.reaction_id s.reactions)) (Frames-deliver_to item)

  pub Frames-drain_reaction_queue : Frames (drain_reaction_queue ports)
  unfolding drain_reaction_queue
  Frames-drain_reaction_queue =
      Frames->>= (access (claim_reaction_batch 100)) (λ batch. for_each (deliver_item ports) batch)
        (Frames-access (claim_reaction_batch 100) (claim_reaction_batch-SameCore 100))
        (λ batch. Frames-for_each (deliver_item ports) batch Frames-deliver_item)
