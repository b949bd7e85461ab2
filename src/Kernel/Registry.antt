-- ===== src/Kernel/Registry.antt =====
-- packages/runtime-kernel/src/waiters/registry.ts: promises of in-process waits. A promise is the
-- number of its creation; `settled` holds the resolutions that promises got.
use murrmure.Prelude.{ℕ, suc, String, Option, none, some, []}
use murrmure.Dict.{Dict, string_key, nat_key, lookup, insert, remove}
use murrmure.Contracts.Waits.{WaitResolution}

pub record WaitRegistry : Type 0 where
  pub deferred : Dict String ℕ
  pub settled : Dict ℕ WaitResolution
  pub next_promise : ℕ

abbrev pub new_registry : WaitRegistry
new_registry = record { deferred = []; settled = []; next_promise = 0 }

-- A second registration under one wait replaces the first.
unfoldable pub register_deferred : String → WaitRegistry → ℕ × WaitRegistry
register_deferred wait_id r = (
  r.next_promise,
  record r {
    deferred = insert wait_id r.next_promise r.deferred;
    next_promise = suc r.next_promise;
  },
)

unfoldable pub resolve : String → WaitResolution → WaitRegistry → WaitRegistry
resolve wait_id resolution r = elim (lookup wait_id r.deferred) [
  | none ↦ r
  | some promise ↦ record r {
    deferred = remove wait_id r.deferred;
    settled = insert promise resolution r.settled;
  }
]

unfoldable pub settlement : ℕ → WaitRegistry → Option WaitResolution
settlement promise r = lookup promise r.settled
