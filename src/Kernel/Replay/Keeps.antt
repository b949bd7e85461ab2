-- ===== src/Kernel/Replay/Keeps.antt =====
-- Computations that keep the invariant, and how they compose.
use murrmure.Prelude.{
  suc, String, ◌≡◌, refl, Bool, true, false, Option, none, some, arith, if◌then◌else◌,
}
use murrmure.Dict.{string_key, lookup}
use murrmure.Contracts.Results.{Provenance, forbidden, not_found}
use murrmure.Contracts.Journal.EntryTypes
use murrmure.Contracts.Results.DenialCodes
use murrmure.Contracts.Aggregates.{Aggregate}
use murrmure.Store.State.{MemoryStoreState}
use murrmure.Kernel.Handlers.Denials.{errors_text, deny_missing, deny_invalid}
use murrmure.Kernel.World.{
  SchemaValidation, World, Ports, Result, ok, rejected, M, ◌>>=◌, and_then, gets,
  run_in_transaction,
}
use murrmure.Kernel.Frame.Calculus.{Frames, Frames-run_in_transaction}
use murrmure.Kernel.Frame.Store.{Quiet-gets}
use murrmure.Kernel.Replay.Invariant.{Inv, Frame-Inv}
use murrmure.Kernel.Replay.Commits.{commit_denial-Inv}

module _ (ports : Ports) where
  abbrev pub Keeps : {A : Type 0} → M A → Type 0
  Keeps m = (w : World) → Inv ports w → Inv ports (m w).1

  pub Frames-Keeps : {A : Type 0} (m : M A) → Frames m → Keeps m
  Frames-Keeps m h w i = Frame-Inv (h w) i

  pub Keeps->>= :
      {A B : Type 0} (m : M A) (f : A → M B) → Keeps m → ((a : A) → Keeps (f a)) → Keeps (m >>= f)
  Keeps->>= {A} {B} m f hm hf w i = go (m w).0 (m w).1 (hm w i)
    where
      go : (r : Result A) (w' : World) → Inv ports w' → Inv ports (and_then r w' f).1
      go (ok a) w' h = hf a w' h
      go (rejected message) w' h = h

  pub Keeps-if :
      {A : Type 0} (b : Bool) (m n : M A) → Keeps m → Keeps n → Keeps (if b then m else n)
  Keeps-if true m n hm hn = hm
  Keeps-if false m n hm hn = hn

  -- An id and a reading of the clock change nothing else.
  abbrev pub drawn : World → World
  drawn w = record w { ids_taken = suc w.ids_taken; clock_read = suc w.clock_read }

  pub drawn-Inv : (w : World) → Inv ports w → Inv ports (drawn w)
  drawn-Inv w i =
      Frame-Inv (record { journal = refl; snapshots = refl; next_seq = refl; ids = omega arith }) i

  -- The refusals that several handlers give.
  module _ (p : Provenance) where
    pub deny_invalid-Keeps :
        (v : SchemaValidation) (other : String) (id : Option String)
        → Keeps (deny_invalid ports p v other id)
    deny_invalid-Keeps v other id =
        commit_denial-Inv ports p EntryTypes.validation_denied DenialCodes.validation_denied
          (errors_text v other) forbidden false none id

    pub deny_missing-Keeps : (type id : String) → Keeps (deny_missing ports p type id)
    deny_missing-Keeps type id =
        commit_denial-Inv ports p type DenialCodes.not_found "Aggregate not found" not_found false
          none (some id)

  -- A read of the snapshots, with what was read.
  pub read-Keeps :
      {A : Type 0} (id : String) (k : Option Aggregate → M A)
      → ((w : World) (o : Option Aggregate)
          → lookup id w.store.snapshots ≡ o
          → Inv ports w
          → Inv ports (k o w).1)
      → Keeps (run_in_transaction (gets (λ s. lookup id s.snapshots)) >>= k)
  unfolding run_in_transaction
  read-Keeps id k h w i =
      let read = gets (λ (s : MemoryStoreState). lookup id s.snapshots) in
      let f = Frames-run_in_transaction read (Quiet-gets (λ s. lookup id s.snapshots)) w in
      let w1 = (run_in_transaction read w).1 in
      h w1 (lookup id w.store.snapshots) (rw f.snapshots refl) (Frame-Inv f i)
