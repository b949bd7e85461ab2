-- ===== src/Kernel/Frame/Store.antt =====
-- The store's operations that keep the frame.
use murrmure.Prelude.{inl, inr, Option-cases, ℕ, String, ◌≡◌, refl, arith, ap}
use murrmure.Contracts.Results.{CommandResult}
use murrmure.Contracts.Aggregates.{Checkpoint}
use murrmure.Contracts.Waits.{WaitRow}
use murrmure.Contracts.Reactions.{DeliveryLogEntry, ReactionSpec, ReactionQueueItem}
use murrmure.Contracts.Rules.{RuleRef}
use murrmure.Contracts.Reactions.{ActionSpec}
use murrmure.Store.State.{MemoryStoreState}
use murrmure.Store.Transaction.{
  MemoryTransaction, TxM, ProjectionOp, put_wait, insert_dedup, append_delivery_log,
  upsert_projection, insert_reaction, enqueue_reaction, try_mark_projection_applied,
  insert_idempotency, upsert_checkpoint, insert_outbox,
}
use murrmure.Kernel.World.{
  ActionContext, Ports, gets, modify, access, in_tx, on_registry, ulid, now_iso, date_after,
  load_rules, invoke_action,
}
use murrmure.Kernel.Registry.{WaitRegistry}
use murrmure.Kernel.Frame.Calculus.{Frame-refl, Frames, Quiet}

-- The journal, the snapshots and the next number of a store.
pub record SameCore (s s' : MemoryStoreState) : Type 0 where
  pub journal : s'.journal ≡ s.journal
  pub snapshots : s'.snapshots ≡ s.snapshots
  pub next_seq : s'.next_seq ≡ s.next_seq

-- An operation of a transaction that touches neither the store nor the drafts.
abbrev pub Leaves : {A : Type 0} → TxM A → Type 0
Leaves op =
    (s : MemoryStoreState) (tx : MemoryTransaction)
    → ((op s tx).1 ≡ s)
      × ((op s tx).2.journal_drafts ≡ tx.journal_drafts)
      × ((op s tx).2.snapshot_ops ≡ tx.snapshot_ops)

pub Quiet-in_tx : {A : Type 0} (op : TxM A) → Leaves op → Quiet (in_tx op)
Quiet-in_tx op h w =
    let (same, drafts, ops) = h w.store w.transaction in
    (
      (op w.store w.transaction).0,
      refl,
      record {
        frame = record {
          journal = ap (λ s. s.journal) same;
          snapshots = ap (λ s. s.snapshots) same;
          next_seq = ap (λ s. s.next_seq) same;
          ids = omega arith;
        };
        drafts = drafts;
        ops = ops;
      },
    )

pub put_wait-Leaves : (row : WaitRow) → Leaves (put_wait row)
unfolding put_wait
put_wait-Leaves row s tx = (refl, refl, refl)

pub insert_dedup-Leaves : (now key expires : String) → Leaves (insert_dedup now key expires)
unfolding insert_dedup
insert_dedup-Leaves now key expires s tx = (refl, refl, refl)

pub append_delivery_log-Leaves : (entry : DeliveryLogEntry) → Leaves (append_delivery_log entry)
unfolding append_delivery_log
append_delivery_log-Leaves entry s tx = (refl, refl, refl)

pub upsert_projection-Leaves : (op : ProjectionOp) → Leaves (upsert_projection op)
unfolding upsert_projection
upsert_projection-Leaves op s tx = (refl, refl, refl)

pub insert_reaction-Leaves : (r : ReactionSpec) → Leaves (insert_reaction r)
unfolding insert_reaction
insert_reaction-Leaves r s tx = (refl, refl, refl)

pub enqueue_reaction-Leaves : (item : ReactionQueueItem) → Leaves (enqueue_reaction item)
unfolding enqueue_reaction
enqueue_reaction-Leaves item s tx = (refl, refl, refl)

pub try_mark_projection_applied-Leaves :
    (name : String) (seq : ℕ) → Leaves (try_mark_projection_applied name seq)
unfolding try_mark_projection_applied
try_mark_projection_applied-Leaves name seq s tx = (refl, refl, refl)

pub insert_idempotency-Leaves :
    (id : String) (result : CommandResult) → Leaves (insert_idempotency id result)
unfolding insert_idempotency
insert_idempotency-Leaves id result s tx = (refl, refl, refl)

pub upsert_checkpoint-Leaves : (c : Checkpoint) → Leaves (upsert_checkpoint c)
unfolding upsert_checkpoint
upsert_checkpoint-Leaves c s tx = (refl, refl, refl)

pub insert_outbox-Leaves : (seq : ℕ) → Leaves (insert_outbox seq)
unfolding insert_outbox
insert_outbox-Leaves seq s tx = (refl, refl, refl)

pub Quiet-gets : {A : Type 0} (f : MemoryStoreState → A) → Quiet (gets f)
Quiet-gets f w = (f w.store, refl, record { frame = Frame-refl w; drafts = refl; ops = refl })

pub Frames-gets : {A : Type 0} (f : MemoryStoreState → A) → Frames (gets f)
Frames-gets f w = Frame-refl w

pub Frames-modify :
    (f : MemoryStoreState → MemoryStoreState)
    → ((s : MemoryStoreState) → SameCore s (f s))
    → Frames (modify f)
Frames-modify f h w = record {
  journal = (h w.store).journal;
  snapshots = (h w.store).snapshots;
  next_seq = (h w.store).next_seq;
  ids = omega arith;
}

pub Frames-access :
    {A : Type 0} (f : MemoryStoreState → A × MemoryStoreState)
    → ((s : MemoryStoreState) → SameCore s (f s).1)
    → Frames (access f)
Frames-access f h w = record {
  journal = (h w.store).journal;
  snapshots = (h w.store).snapshots;
  next_seq = (h w.store).next_seq;
  ids = omega arith;
}

pub Frames-on_registry : {A : Type 0} (f : WaitRegistry → A × WaitRegistry) → Frames (on_registry f)
unfolding on_registry
Frames-on_registry f w = record {
  journal = refl;
  snapshots = refl;
  next_seq = refl;
  ids = omega arith;
}

module _ (ports : Ports) where
  pub Quiet-ulid : Quiet (ulid ports)
  unfolding ulid
  Quiet-ulid w = (
    ports.ulid w.ids_taken,
    refl,
    record {
      frame = record { journal = refl; snapshots = refl; next_seq = refl; ids = omega arith };
      drafts = refl;
      ops = refl;
    },
  )

  pub Quiet-now_iso : Quiet (now_iso ports)
  unfolding now_iso
  Quiet-now_iso w = (
    ports.now_iso w.clock_read,
    refl,
    record {
      frame = record { journal = refl; snapshots = refl; next_seq = refl; ids = omega arith };
      drafts = refl;
      ops = refl;
    },
  )

  pub Quiet-date_after : (ms : ℕ) → Quiet (date_after ports ms)
  unfolding date_after
  Quiet-date_after ms w = (
    _,
    refl,
    record {
      frame = record { journal = refl; snapshots = refl; next_seq = refl; ids = omega arith };
      drafts = refl;
      ops = refl;
    },
  )

  pub Frames-date_after : (ms : ℕ) → Frames (date_after ports ms)
  Frames-date_after ms w = (Quiet-date_after ms w).2.frame

  pub Frames-ulid : Frames (ulid ports)
  Frames-ulid w = (Quiet-ulid w).2.frame

  pub Frames-now_iso : Frames (now_iso ports)
  Frames-now_iso w = (Quiet-now_iso w).2.frame

  pub Frames-load_rules : (rule_ref : RuleRef) → Frames (load_rules ports rule_ref)
  unfolding load_rules
  Frames-load_rules rule_ref w = elim (Option-cases (ports.load_rules rule_ref)) [
    | inl e ↦ rw (e, load_rules) (Frame-refl w)
    | inr (artifact, e) ↦ rw (e, load_rules) (Frame-refl w)
  ]

  pub Frames-invoke_action :
      (action : ActionSpec) (ctx : ActionContext) → Frames (invoke_action ports action ctx)
  unfolding invoke_action
  Frames-invoke_action action ctx w = elim (Option-cases (ports.invoke action ctx)) [
    | inl e ↦ rw (e, invoke_action) (Frame-refl w)
    | inr (o, e) ↦ rw (e, invoke_action) (Frame-refl w)
  ]
