-- ===== src/Hub/Guard.antt =====
-- The guard of a space: packages/hub-core/src/run/space-guard.ts.
pub mod Invariant
pub mod Phases
pub mod Order
use murrmure.Prelude.{
  ℕ, suc, String, Bool, true, false, Option, none, some, List, [], if◌then◌else◌, fold,
}
use murrmure.Dict.{Dict, lookup, insert, string_key, nat_key}
use murrmure.Hub.Ids.{bare_space_id}

-- A section waits for the promise before it, runs, and settles, by its result or by its error.
pub data Phase : Type 0 where
  waiting running settled : Phase

-- A call of `with`: its key, and the section whose end it waits for.
pub record Section : Type 0 where
  pub key : String
  pub prev : Option ℕ
  pub phase : Phase

-- The sections have numbers in the order of the calls. `chains` has the last one of each key.
pub record Guard : Type 0 where
  pub chains : Dict String ℕ
  pub sections : Dict ℕ Section
  pub next : ℕ

abbrev pub no_sections : Guard
no_sections = record { chains = []; sections = []; next = 0 }

-- `with`: `run` is chained behind what the key had, and becomes what the key has.
unfoldable pub with_space : String → Guard → Guard
with_space space_id g =
    let key = bare_space_id space_id in
    record {
      chains = insert key g.next g.chains;
      sections =
          insert g.next (record { key = key; prev = lookup key g.chains; phase = waiting })
            g.sections;
      next = suc g.next;
    }

abbrev pub has_settled : Option Section → Bool
has_settled none = false
has_settled (some c) = elim c.phase [ settled ↦ true | _ ↦ false ]

-- The promise before the section is resolved: at once, or when the section before has settled.
abbrev pub may_run : Option ℕ → Guard → Bool
may_run none g = true
may_run (some p) g = has_settled (lookup p g.sections)

abbrev pub in_phase : Phase → Section → Section
in_phase phase c = record { key = c.key; prev = c.prev; phase = phase }

abbrev pub set_section : ℕ → Section → Guard → Guard
set_section n c g = record { chains = g.chains; sections = insert n c g.sections; next = g.next }

abbrev pub begin_found : ℕ → Option Section → Guard → Guard
begin_found n none g = g
begin_found n (some c) g = elim c.phase [
  | waiting ↦ if may_run c.prev g then set_section n (in_phase running c) g else g
  | _ ↦ g
]

-- `prev.then(() => fn())` calls `fn`, when it can.
unfoldable pub begin : ℕ → Guard → Guard
begin n g = begin_found n (lookup n g.sections) g

abbrev pub settle_found : ℕ → Option Section → Guard → Guard
settle_found n none g = g
settle_found n (some c) g = elim c.phase [ running ↦ set_section n (in_phase settled c) g | _ ↦ g ]

-- `fn` ends, in either way.
unfoldable pub settle : ℕ → Guard → Guard
settle n g = settle_found n (lookup n g.sections) g

pub data Action : Type 0 where
  call : (space_id : String) → Action
  start finish : (section : ℕ) → Action

abbrev pub act : Guard → Action → Guard
act g (Action.call space_id) = with_space space_id g
act g (Action.start n) = begin n g
act g (Action.finish n) = settle n g

unfoldable pub run_actions : List Action → Guard
run_actions actions = fold act no_sections actions
