-- ===== src/Kernel/Frame/Waits.antt =====
-- The waits of a fan-out keep the frame.
use murrmure.Prelude.{
  ℕ, String, refl, Bool, Option, none, some, List, if◌then◌else◌, non_empty, is_some, arith,
}
use murrmure.Dict.{string_key, nat_key, lookup}
use murrmure.Contracts.Results.{CommandResult}
use murrmure.Contracts.Journal.{JournalEntry}
use murrmure.Contracts.Waits.{WaitRow, WaitResolution, denied, resolved}
use murrmure.Store.State.{MemoryStoreState}
use murrmure.Store.Transaction.{put_wait}
use murrmure.Kernel.WaitMatch.{matches_wait_condition}
use murrmure.Kernel.Fanout.{
  notify_wait, mark_resolved, mark_found, matched_by, check_wait, resolve_bound_wait, resolve_wait,
  get_progress, set_progress, visit_wait,
}
use murrmure.Kernel.World.{M, pure, ◌>>=◌, ◌>>◌, gets, in_tx, run_in_transaction}
use murrmure.Kernel.Frame.Calculus.{
  Frame-refl, Frames, Frames-pure, Frames->>=, Frames-if, Frames-run_in_transaction,
}
use murrmure.Kernel.Frame.Store.{Quiet-in_tx, put_wait-Leaves, Quiet-gets, Frames-on_registry}

Frames-mark_resolved : (wait : WaitRow) → Frames (mark_resolved wait)
Frames-mark_resolved wait =
    Frames-run_in_transaction (in_tx (put_wait (record wait { status = resolved })))
      (Quiet-in_tx _ (put_wait-Leaves _))

Frames-resolve_wait : (wait : WaitRow) (r : WaitResolution) → Frames (resolve_wait wait r)
unfolding resolve_wait
Frames-resolve_wait wait r =
    Frames->>= (notify_wait wait.wait_id r) (λ _. mark_resolved wait) (Frames-on_registry _)
      (λ _. Frames-mark_resolved wait)

Frames-mark_found : (o : Option WaitRow) → Frames (mark_found o)
Frames-mark_found none = Frames-pure tt
Frames-mark_found (some wait) = Frames-mark_resolved wait

pub Frames-resolve_bound_wait :
    (wait_id : String) (d : CommandResult) → Frames (resolve_bound_wait wait_id d)
unfolding resolve_bound_wait
Frames-resolve_bound_wait wait_id d =
    let read = gets (λ (s : MemoryStoreState). lookup wait_id s.waits) in
    let find = run_in_transaction read in
    Frames->>=
      (notify_wait wait_id
        (record { wait_id = wait_id; status = denied; entry = none; denial = some d }))
      (λ _. find >>= mark_found) (Frames-on_registry _)
      (λ _.
        Frames->>= find mark_found
          (Frames-run_in_transaction read (Quiet-gets (λ s. lookup wait_id s.waits)))
          Frames-mark_found)

Frames-set_progress : (wait_id : String) (o : Option (List ℕ)) → Frames (set_progress wait_id o)
Frames-set_progress wait_id none w = Frame-refl w
Frames-set_progress wait_id (some progress) w = record {
  journal = refl;
  snapshots = refl;
  next_seq = refl;
  ids = omega arith;
}

Frames-get_progress : (wait_id : String) → Frames (get_progress wait_id)
Frames-get_progress wait_id w = Frame-refl w

Frames-check_wait : (entry : JournalEntry) (wait : WaitRow) → Frames (check_wait entry wait)
unfolding check_wait
Frames-check_wait entry wait =
    let finish : Bool → M (Unit {0}) =
      λ b. if b then resolve_wait wait (matched_by entry wait) else pure tt in
    let result =
      λ (progress : Option (List ℕ)). matches_wait_condition wait.condition entry progress in
    Frames->>= (get_progress wait.wait_id)
      (λ progress.
        set_progress wait.wait_id (result progress).progress >> finish (result progress).matched)
      (Frames-get_progress wait.wait_id)
      (λ progress.
        Frames->>= (set_progress wait.wait_id (result progress).progress)
          (λ _. finish (result progress).matched)
          (Frames-set_progress wait.wait_id (result progress).progress)
          (λ _.
            Frames-if (result progress).matched (resolve_wait wait (matched_by entry wait))
              (pure tt) (Frames-resolve_wait wait _) (Frames-pure tt)))

pub Frames-visit_wait :
    (denial : Option CommandResult) (entry : JournalEntry) (wait : WaitRow)
    → Frames (visit_wait denial entry wait)
unfolding visit_wait
Frames-visit_wait none entry wait = Frames-check_wait entry wait
Frames-visit_wait (some result) entry wait =
    Frames-if (is_some (non_empty wait.bound_command_id)) (resolve_bound_wait wait.wait_id result)
      (check_wait entry wait) (Frames-resolve_bound_wait wait.wait_id result)
      (Frames-check_wait entry wait)
