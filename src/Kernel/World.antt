-- ===== src/Kernel/World.antt =====
-- What the kernel reaches: its ports, the state that a command changes, and a monad of that state
-- with rejections. One command runs to its end before the next.
use murrmure.Prelude.{ℕ, suc, ◌+◌, String, Bool, Option, none, some, List, [], ◌∷◌}
use murrmure.Dict.{Dict}
use murrmure.Json.{Fields}
use murrmure.Contracts.Results.{Provenance}
use murrmure.Contracts.Journal.{JournalEntry}
use murrmure.Contracts.Rules.{RuleRef, RuleArtifact}
use murrmure.Contracts.Reactions.{ActionSpec}
use murrmure.Kernel.Executor.{ConditionPort}
use murrmure.Kernel.Registry.{WaitRegistry, new_registry}
use murrmure.Kernel.WaitMatch.{Progress}
use murrmure.Store.State.{MemoryStoreState, create_memory_store_state}
use murrmure.Store.Transaction.{MemoryTransaction, TxM, new_transaction}
use murrmure.Store.Commit.{commit, rollback}

-- `policy.evaluate`: the command's provenance and kind, in the phase `pre_load`.
pub record PolicyResult : Type 0 where
  pub allowed : Bool
  -- `denial?.code` and `denial?.message`.
  pub denial_code : Option String
  pub denial_message : Option String

pub record SchemaValidation : Type 0 where
  pub valid : Bool
  pub errors : Option (List String)

pub data ActionOutcome : Type 0 where
  action_success action_failure : ActionOutcome

pub record ActionContext : Type 0 where
  pub entry : JournalEntry
  pub reaction_id : String
  pub attempt_no : ℕ

abbrev pub ProjectionHandler : Type 0
ProjectionHandler = JournalEntry → Option Fields → Option Fields

-- `KernelDeps` without the store: code outside the kernel. The n-th id and the n-th readings of
-- the clocks are functions of n; `none` is a rejected promise.
pub record Ports : Type 0 where
  pub ulid : ℕ → String
  pub now_iso : ℕ → String
  -- `Date.now()` in milliseconds, and `new Date(ms).toISOString()`.
  pub date_now : ℕ → ℕ
  pub to_iso : ℕ → String
  pub evaluate_policy : Provenance → String → PolicyResult
  pub load_rules : RuleRef → Option RuleArtifact
  pub condition : ConditionPort
  pub validate : Fields → Fields → SchemaValidation
  pub invoke : ActionSpec → ActionContext → Option ActionOutcome
  pub projection_handlers : List (String × ProjectionHandler)

-- `transaction` is the object that the running `runInTransaction` made.
pub record World : Type 0 where
  pub store : MemoryStoreState
  pub transaction : MemoryTransaction
  pub registry : WaitRegistry
  pub compound_progress : Dict String Progress
  pub ids_taken : ℕ
  pub clock_read : ℕ

abbrev pub initial_world : World
initial_world = record {
  store = create_memory_store_state;
  transaction = new_transaction;
  registry = new_registry;
  compound_progress = [];
  ids_taken = 0;
  clock_read = 0;
}

pub data Result (A : Type 0) : Type 0 where
  ok : A → Result A
  rejected : String → Result A

abbrev pub M : Type 0 → Type 0
M A = World → Result A × World

abbrev pub pure : {A : Type 0} → A → M A
pure a w = (ok a, w)

abbrev pub reject : {A : Type 0} → String → M A
reject message w = (rejected message, w)

abbrev pub and_then : {A B : Type 0} → Result A → World → (A → M B) → Result B × World
and_then (ok a) w f = f a w
and_then (rejected message) w f = (rejected message, w)

infixl 5 ◌>>=◌ ◌>>◌
abbrev pub ◌>>=◌ : {A B : Type 0} → M A → (A → M B) → M B
◌>>=◌ m f w = let r = m w in and_then r.0 r.1 f

abbrev pub ◌>>◌ : {B : Type 0} → M (Unit {0}) → M B → M B
m >> k = m >>= λ _. k

abbrev pub gets : {A : Type 0} → (MemoryStoreState → A) → M A
gets f w = (ok (f w.store), w)

abbrev pub modify : (MemoryStoreState → MemoryStoreState) → M (Unit {0})
modify f w = (ok tt, record w { store = f w.store })

-- A store operation that returns a value and the new store.
abbrev pub access : {A : Type 0} → (MemoryStoreState → A × MemoryStoreState) → M A
access f w = let r = f w.store in (ok r.0, record w { store = r.1 })

-- An operation of the running transaction.
abbrev pub in_tx : {A : Type 0} → TxM A → M A
in_tx op w =
    let (a, store, transaction) = op w.store w.transaction in
    (ok a, record w { store = store; transaction = transaction })

-- `runInTransaction`: a new transaction, committed when the body returns and rolled back when it
-- throws.
abbrev pub close : {A : Type 0} → Result A → World → Result A × World
close (ok a) w =
    (ok a, record w { store = commit w.transaction w.store; transaction = new_transaction })
close (rejected message) w = (
  rejected message,
  record w { store = rollback w.transaction w.store; transaction = new_transaction },
)

unfoldable pub run_in_transaction : {A : Type 0} → M A → M A
unfolding commit rollback
run_in_transaction body w =
    let r = body (record w { transaction = new_transaction }) in close r.0 r.1

-- `for (const x of xs) await f(x)`.
unfoldable pub for_each : {A : Type 0} → (A → M (Unit {0})) → List A → M (Unit {0})
for_each f [] = pure tt
for_each f (x ∷ xs) = f x >> for_each f xs

unfoldable pub on_registry : {A : Type 0} → (WaitRegistry → A × WaitRegistry) → M A
on_registry f w = let r = f w.registry in (ok r.0, record w { registry = r.1 })

module _ (ports : Ports) where
  -- `ids.ulid()`.
  unfoldable pub ulid : M String
  ulid w = (ok (ports.ulid w.ids_taken), record w { ids_taken = suc w.ids_taken })

  -- `clock.nowIso()`.
  unfoldable pub now_iso : M String
  now_iso w = (ok (ports.now_iso w.clock_read), record w { clock_read = suc w.clock_read })

  -- `new Date(Date.now() + ms).toISOString()`.
  unfoldable pub date_after : ℕ → M String
  date_after ms w = (
    ok (ports.to_iso (ports.date_now w.clock_read + ms)),
    record w { clock_read = suc w.clock_read },
  )

  unfoldable pub load_rules : RuleRef → M RuleArtifact
  load_rules rule_ref w = elim (ports.load_rules rule_ref) [
    | none ↦ (rejected "rules.load", w)
    | some artifact ↦ (ok artifact, w)
  ]

  unfoldable pub invoke_action : ActionSpec → ActionContext → M ActionOutcome
  invoke_action action ctx w = elim (ports.invoke action ctx) [
    | none ↦ (rejected "action.invoke", w)
    | some outcome ↦ (ok outcome, w)
  ]
