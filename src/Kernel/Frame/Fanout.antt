-- ===== src/Kernel/Frame/Fanout.antt =====
-- The fan-out keeps the frame: projections, and the loop over the entries.
use murrmure.Prelude.{
  ℕ, String, refl, Bool, not, Option, none, some, List, if◌then◌else◌, inl, inr, Option-cases,
  non_empty,
}
use murrmure.Prelude.Int.{ℤ, pos}
use murrmure.Dict.{string_key, nat_key, lookup}
use murrmure.Contracts.Results.{CommandResult}
use murrmure.Contracts.Journal.{JournalEntry}
use murrmure.Contracts.Reactions.{ReactionSpec}
use murrmure.Store.State.{MemoryStoreState, Projection}
use murrmure.Json.{Fields}
use murrmure.Store.Transaction.{try_mark_projection_applied}
use murrmure.Store.Port.{
  list_pending_waits, list_reactions, get_projection, set_projection_cursor, ack_fanout,
}
use murrmure.Kernel.Projections.{apply_once, write_next, state_of, dispatch_projection}
use murrmure.Kernel.Fanout.{
  either_entry, visit_wait, visit_reaction, drain_reaction_queue, fan_out, visit_entry,
  dispatch_fanout,
}
use murrmure.Kernel.World.{
  Ports, ProjectionHandler, M, pure, ◌>>=◌, ◌>>◌, gets, modify, in_tx, run_in_transaction, for_each,
}
use murrmure.Kernel.Frame.Calculus.{
  Frames, Quiet, Frames->>=, Frames-for_each, Quiet-pure, Quiet->>=, Quiet-if,
  Frames-run_in_transaction,
}
use murrmure.Kernel.Frame.Store.{
  SameCore, Quiet-in_tx, upsert_projection-Leaves, try_mark_projection_applied-Leaves, Quiet-gets,
  Frames-gets, Frames-modify,
}
use murrmure.Kernel.Frame.Waits.{Frames-resolve_bound_wait, Frames-visit_wait}
use murrmure.Kernel.Frame.Reactions.{Frames-visit_reaction, Frames-drain_reaction_queue}

set_projection_cursor-SameCore :
    (name : String) (seq : ℤ) (s : MemoryStoreState) → SameCore s (set_projection_cursor name seq s)
unfolding set_projection_cursor
set_projection_cursor-SameCore name seq s = record {
  journal = refl;
  snapshots = refl;
  next_seq = refl;
}

pub ack_fanout-SameCore :
    (now : String) (seq : ℕ) (s : MemoryStoreState) → SameCore s (ack_fanout now seq s)
unfolding ack_fanout
ack_fanout-SameCore now seq s = elim (Option-cases (lookup seq s.outbox)) [
  | inl e ↦ rw (e, ack_fanout) (record { journal = refl; snapshots = refl; next_seq = refl })
  | inr (row, e) ↦ rw (e, ack_fanout) (record { journal = refl; snapshots = refl; next_seq = refl })
]

Quiet-write_next :
    (name : String) (entry : JournalEntry) (o : Option Fields) → Quiet (write_next name entry o)
Quiet-write_next name entry none = Quiet-pure tt
Quiet-write_next name entry (some next) = Quiet-in_tx _ (upsert_projection-Leaves _)

Quiet-apply_once :
    (name : String) (handler : ProjectionHandler) (entry : JournalEntry)
    → Quiet (apply_once name handler entry)
Quiet-apply_once name handler entry =
    let read = gets (get_projection name entry.scope_id entry.aggregate_id) in
    let finish = λ (applied : Bool) (existing : Option Projection).
      if not applied then pure tt else write_next name entry (handler entry (state_of existing)) in
    Quiet->>= (in_tx (try_mark_projection_applied name entry.seq))
      (λ applied. read >>= finish applied)
      (Quiet-in_tx _ (try_mark_projection_applied-Leaves name entry.seq))
      (λ applied. Quiet->>= read (finish applied) (Quiet-gets _) (λ existing.
        Quiet-if (not applied) (pure tt) (write_next name entry (handler entry (state_of existing)))
          (Quiet-pure tt) (Quiet-write_next name entry _)))

Frames-dispatch_projection :
    (name : String) (handler : ProjectionHandler) (entry : JournalEntry)
    → Frames (dispatch_projection name handler entry)
unfolding dispatch_projection
Frames-dispatch_projection name handler entry =
    Frames->>= (run_in_transaction (apply_once name handler entry))
      (λ _. modify (set_projection_cursor name (pos entry.seq)))
      (Frames-run_in_transaction _ (Quiet-apply_once name handler entry))
      (λ _. Frames-modify _ (set_projection_cursor-SameCore name (pos entry.seq)))

module _ (ports : Ports) where
  Frames-fan_out :
      (denial : Option CommandResult) (entry : JournalEntry) → Frames (fan_out ports denial entry)
  unfolding fan_out
  Frames-fan_out denial entry =
      let projections =
        for_each (λ (h : String × ProjectionHandler). dispatch_projection h.0 h.1 entry)
          ports.projection_handlers in
      let react =
        λ (reactions : List ReactionSpec). for_each (visit_reaction ports entry) reactions in
      let rest =
        gets (list_reactions entry.scope_id) >>= (λ reactions. react reactions >> projections) in
      Frames->>= (gets (list_pending_waits entry.scope_id entry.aggregate_id))
        (λ waits. for_each (visit_wait denial entry) waits >> rest)
        (Frames-gets (list_pending_waits entry.scope_id entry.aggregate_id))
        (λ waits.
          Frames->>= (for_each (visit_wait denial entry) waits) (λ _. rest)
            (Frames-for_each (visit_wait denial entry) waits (Frames-visit_wait denial entry))
            (λ _.
              Frames->>= (gets (list_reactions entry.scope_id))
                (λ reactions. react reactions >> projections)
                (Frames-gets (list_reactions entry.scope_id))
                (λ reactions.
                  Frames->>= (react reactions) (λ _. projections)
                    (Frames-for_each (visit_reaction ports entry) reactions
                      (Frames-visit_reaction ports entry))
                    (λ _.
                      Frames-for_each (λ h. dispatch_projection h.0 h.1 entry)
                        ports.projection_handlers
                        (λ h. Frames-dispatch_projection h.0 h.1 entry)))))

  Frames-either_entry :
      (bound : Option String) (denial : Option CommandResult) (m : M (Unit {0}))
      → Frames m
      → Frames (either_entry bound denial m)
  Frames-either_entry (some wait_id) (some result) m h = Frames-resolve_bound_wait wait_id result
  Frames-either_entry none _ m h = h
  Frames-either_entry (some _) none m h = h

  -- The whole fanout of a command changes neither the journal nor the snapshots.
  -- The fan-out of any entries leaves the journal, the snapshots and the next journal number as
  -- they are, also when an action rejects.
  pub Frames-dispatch_fanout :
      (entries : List JournalEntry) (bound_wait_id : Option String) (denial : Option CommandResult)
      → Frames (dispatch_fanout ports entries bound_wait_id denial)
  unfolding dispatch_fanout visit_entry
  Frames-dispatch_fanout entries bound_wait_id denial =
      Frames->>= (for_each (visit_entry ports bound_wait_id denial) entries)
        (λ _. drain_reaction_queue ports)
        (Frames-for_each (visit_entry ports bound_wait_id denial) entries (λ entry.
          Frames-either_entry (non_empty bound_wait_id) denial (fan_out ports denial entry)
            (Frames-fan_out denial entry)))
        (λ _. Frames-drain_reaction_queue ports)
