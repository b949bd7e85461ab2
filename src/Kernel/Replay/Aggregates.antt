-- ===== src/Kernel/Replay/Aggregates.antt =====
-- Creation and transition write the snapshot that the fold of their entry gives.
use murrmure.Prelude.{
  suc, String, ◌≡◌, refl, sym, ◌∙◌, ap, Bool, true, false, ◌&&◌, Option, none, some, List, [], ◌∷◌,
  arith, if◌then◌else◌, get_or, ◌==◌, fold, keep, subst,
}
use murrmure.Prelude.Int.{pos, negsuc, int_eq, int_eq_iff}
use murrmure.Dict.{Dict, string_key, lookup, insert}
use murrmure.Json.{Fields, get, spread, truthy, as_obj, obj_or_undefined, field, end, str, num}
use murrmure.Contracts.Results.{Provenance, AggregateStatus, active, terminal, archived, success}
use murrmure.Contracts.Journal.{JournalEntry, AllocatedSeq}
use murrmure.Contracts.Journal.EntryTypes
use murrmure.Contracts.Rules.{RuleArtifact, RuleTransition}
use murrmure.Contracts.Aggregates.{Aggregate}
use murrmure.Contracts.Commands.{CreateCommand, TransitionCommand}
use murrmure.Store.Transaction.{effective_revision}
use murrmure.Kernel.Entries.{build_entry, about}
use murrmure.Kernel.Executor.{apply_transition, transition_applied_payload, patch_metadata}
use murrmure.Kernel.Fold.{
  is_relevant, should_skip_for_fold, is_state_mutating_entry, fold_entry, created_from,
  transitioned, as_status, status_value, resolve_aggregate_status, fold_journal_to_snapshot,
  sort_by_seq,
}
use murrmure.Kernel.World.{World, Ports, ulid, now_iso}
use murrmure.Kernel.Handlers.Create.{created_aggregate, created_payload, create_aggregate}
use murrmure.Kernel.Handlers.Transitions.{take_transition}
use murrmure.Kernel.Frame.Calculus.{Frame}
use murrmure.Kernel.Replay.Logged.{Logged, numbered_entry}
use murrmure.Kernel.Replay.Invariant.{Inv, Injective, Frame-Inv, Snapshot-Inv}
use murrmure.Kernel.Replay.Commits.{commit_success-Logged}

and_true : (b : Bool) → (b && true) ≡ b
and_true true = refl
and_true false = refl

-- The entry of a creation starts the very aggregate that is stored.
fold_entry-created :
    (p : Provenance) (command : CreateCommand) (artifact : RuleArtifact) (id entry_id ts : String)
    (acc : Option Aggregate) (allocated : AllocatedSeq)
    → fold_entry none id acc (
        numbered_entry
          (build_entry p entry_id ts EntryTypes.aggregate_created success
            (created_payload command artifact)
            (about id))
          allocated)
      ≡ some (created_aggregate p command artifact id ts)
unfolding fold_entry is_state_mutating_entry created_from get
fold_entry-created p command artifact id entry_id ts acc allocated = refl

status-round_trip : (s : AggregateStatus) → as_status (status_value s) ≡ some s
status-round_trip active = refl
status-round_trip terminal = refl
status-round_trip archived = refl

patched :
    (metadata : Fields) (patch : Option Fields)
    → (if truthy (obj_or_undefined patch)
        then spread metadata (get_or (as_obj (obj_or_undefined patch)) end)
        else metadata)
      ≡ patch_metadata metadata patch
patched metadata none = refl
patched metadata (some patch) = refl

-- The entry of a transition takes the aggregate to the very one that is stored.
fold_entry-transitioned :
    (p : Provenance) (aggregate : Aggregate) (artifact : RuleArtifact) (transition : RuleTransition)
    (id entry_id ts : String) (patch : Option Fields) (allocated : AllocatedSeq)
    → let updated = apply_transition aggregate transition artifact ts patch in
      fold_entry none id (some aggregate) (
        numbered_entry
          (build_entry p entry_id ts EntryTypes.transition_applied success
            (transition_applied_payload transition updated patch)
            (about id))
          allocated)
      ≡ some updated
unfolding fold_entry is_state_mutating_entry transitioned apply_transition
    transition_applied_payload get
fold_entry-transitioned p aggregate artifact transition id entry_id ts patch allocated =
    rw (patched aggregate.metadata patch)
      (rw (status-round_trip (resolve_aggregate_status transition.to artifact)) refl)

-- Each aggregate that a fold gives has the id that is asked for.
abbrev HasId : String → Option Aggregate → Type 0
HasId id none = Unit
HasId id (some a) = a.aggregate_id ≡ id

fold_entry-HasId :
    (id : String) (acc : Option Aggregate) (e : JournalEntry)
    → HasId id acc
    → HasId id (fold_entry none id acc e)
unfolding fold_entry created_from transitioned
fold_entry-HasId id none e h = ground arith
fold_entry-HasId id (some a) e h = ground arith

fold-HasId :
    (id : String) (acc : Option Aggregate) (es : List JournalEntry)
    → HasId id acc
    → HasId id (fold (fold_entry none id) acc es)
fold-HasId id acc [] h = h
fold-HasId id acc (e ∷ es) h =
    fold-HasId id (fold_entry none id acc e) es (fold_entry-HasId id acc e h)

fold_journal-HasId :
    (id : String) (es : List JournalEntry) → HasId id (fold_journal_to_snapshot es id none)
unfolding fold_journal_to_snapshot
fold_journal-HasId id es = fold-HasId id none (sort_by_seq (keep (is_relevant id) es)) tt

-- The revision that is read is the one that the commit expects.
current :
    (id : String) (a : Aggregate) (m : Dict String Aggregate)
    → a.aggregate_id ≡ id
    → lookup id m ≡ some a
    → int_eq (effective_revision (lookup a.aggregate_id m)) (pos a.revision) ≡ true
current id a m same found =
    subst (λ x. int_eq (effective_revision (lookup x m)) (pos a.revision) ≡ true) (sym same)
      (rw found ((int_eq_iff (pos a.revision) (pos a.revision)).1 refl))

taken :
    (id : String) (a : Aggregate) (other : String) (m : Dict String Aggregate)
    → other ≡ id
    → lookup id m ≡ some a
    → lookup other m ≡ none
    → ⊥
taken id a other m e found free = cc (ap (λ x. lookup x m) e)

module _ {ports : Ports} where
  -- A snapshot is stored under its own id.
  pub snapshot-HasId :
      {w : World} (id : String) (a : Aggregate)
      → Inv ports w
      → lookup id w.store.snapshots ≡ some a
      → a.aggregate_id ≡ id
  snapshot-HasId {w} id a i h =
      subst (HasId id) (sym (i.folded id) ∙ h) (fold_journal-HasId id w.store.journal)

  module _ (p : Provenance) where
    pub create_aggregate-Inv :
        Injective ports
        → (command : CreateCommand) (artifact : RuleArtifact) (w : World) → Inv ports w
        → Inv ports (create_aggregate ports p command artifact w).1
    unfolding create_aggregate ulid now_iso should_skip_for_fold
    create_aggregate-Inv injective command artifact w i =
        let id = ports.ulid w.ids_taken in
        let ts = ports.now_iso w.clock_read in
        let entry_id = ports.ulid (suc w.ids_taken) in
        let w3 = record w { ids_taken = suc (suc w.ids_taken); clock_read = suc w.clock_read } in
        let draft =
          build_entry p entry_id ts EntryTypes.aggregate_created success
            (created_payload command artifact) (about id) in
        let a = created_aggregate p command artifact id ts in
        let free : int_eq (effective_revision (lookup id w.store.snapshots)) (negsuc 0) ≡ true =
          rw (i.fresh w.ids_taken (omega arith)) refl in
        let l =
          commit_success-Logged ports p draft a (negsuc 0) "aggregate_created"
            (field "aggregate_id" (str id)
              (field "state" (str artifact.initial_state) (field "revision" (num 0) end)))
            w3 free in
        let first : Frame w w3 = record {
          journal = refl;
          snapshots = refl;
          next_seq = refl;
          ids = omega arith;
        } in
        Snapshot-Inv id a l (λ j. and_true (id == j))
          (fold_entry-created p command artifact id entry_id ts _ l.allocated)
          (λ k h e. absurd (omega (arith, l.ids, injective k w.ids_taken e))) (Frame-Inv first i)

    pub take_transition-Inv :
        Injective ports
        → (command : TransitionCommand) (aggregate : Aggregate) (artifact : RuleArtifact)
          (transition : RuleTransition) (ts : String) (w : World)
        → lookup command.aggregate_id w.store.snapshots ≡ some aggregate
        → Inv ports w
        → Inv ports (take_transition ports p command aggregate artifact transition ts w).1
    unfolding take_transition ulid should_skip_for_fold apply_transition
    take_transition-Inv injective command aggregate artifact transition ts w found i =
        let id = command.aggregate_id in
        let same = snapshot-HasId id aggregate i found in
        let entry_id = ports.ulid w.ids_taken in
        let w2 = record w { ids_taken = suc w.ids_taken } in
        let updated = apply_transition aggregate transition artifact ts command.payload in
        let draft =
          build_entry p entry_id ts EntryTypes.transition_applied success
            (transition_applied_payload transition updated command.payload) (about id) in
        let l =
          commit_success-Logged ports p draft updated (pos aggregate.revision) "transition_applied"
            (field "aggregate_id" (str updated.aggregate_id)
              (field "state" (str updated.state) (field "revision" (num updated.revision) end)))
            w2 (current id aggregate w.store.snapshots same found) in
        let first : Frame w w2 = record {
          journal = refl;
          snapshots = refl;
          next_seq = refl;
          ids = omega arith;
        } in
        let w' = (take_transition ports p command aggregate artifact transition ts w).1 in
        let l' = subst (λ x. Logged draft (insert x updated w.store.snapshots) w2 w') same l in
        Snapshot-Inv id updated l' (λ j. and_true (id == j))
          (rw found (
            fold_entry-transitioned p aggregate artifact transition id entry_id ts command.payload
              l'.allocated))
          (λ k h e.
            taken id aggregate (ports.ulid k) w.store.snapshots e found
              (i.fresh k (omega (arith, l'.ids))))
          (Frame-Inv first i)
