-- ===== src/Kernel/Verify.antt =====
-- packages/runtime-kernel/src/command/handler.ts: `verifyFold`.
use murrmure.Prelude.{String, Bool, true, false, ◌&&◌, Option, none, some, ◌==◌, nat_eq}
use murrmure.Dict.{string_key, nat_key, lookup}
use murrmure.Contracts.Results.{AggregateStatus, active, terminal, archived}
use murrmure.Contracts.Aggregates.{Aggregate}
use murrmure.Store.Port.{tail_journal, default_limit}
use murrmure.Kernel.Fold.{fold_journal_to_snapshot}
use murrmure.Kernel.World.{M, pure, gets, run_in_transaction, ◌>>=◌}

abbrev pub same_status : AggregateStatus → AggregateStatus → Bool
same_status active active = true
same_status terminal terminal = true
same_status archived archived = true
same_status _ _ = false

abbrev pub agree : Option Aggregate → Option Aggregate → Bool
agree none none = true
agree (some snapshot) (some folded) =
    (snapshot.state == folded.state)
    && nat_eq snapshot.revision folded.revision
    && same_status snapshot.status folded.status
agree _ _ = false

-- `verifyFold`, over the entries that `tailJournal(0)` returns.
unfoldable pub verify_fold : String → M Bool
unfolding fold_journal_to_snapshot tail_journal run_in_transaction
verify_fold aggregate_id = do
  snapshot ← run_in_transaction (gets (λ s. lookup aggregate_id s.snapshots))
  journal ← gets (tail_journal 0 default_limit)
  pure (agree snapshot (fold_journal_to_snapshot journal aggregate_id none))
