-- ===== src/Kernel/Replay/Marked.antt =====
-- How an answer that is given again differs from the stored one: the replay branch of
-- `RuntimeKernel.execute`, packages/runtime-kernel/src/command/handler.ts.
use murrmure.Prelude.{String, ◌≡◌, refl, true, arith, ◌==◌, eq_iff, if◌then◌else◌}
use murrmure.Json.{Value, Fields, end, field, bool, get, put}
use murrmure.Contracts.Results.{CommandResult}
use murrmure.Kernel.Execute.{replayed}

-- The answer has a code of its own and the field `replay`, and for the rest is the stored one.
pub record IsReplay (stored answer : CommandResult) : Type 0 where
  pub code : answer.code ≡ "idempotency_replay"
  pub body :
      (key : String)
      → get key answer.body ≡ (if key == "replay" then bool true else get key stored.body)
  pub outcome : answer.outcome ≡ stored.outcome
  pub http_semantic : answer.http_semantic ≡ stored.http_semantic
  pub journal_entry_id : answer.journal_entry_id ≡ stored.journal_entry_id
  pub seq : answer.seq ≡ stored.seq

get-put :
    (key other : String) (value : Value) (body : Fields)
    → get other (put key value body) ≡ (if other == key then value else get other body)
unfolding get put
get-put key other value end = ground (arith, eq_iff key other, eq_iff other key)
get-put key other value (field k v rest) =
    ground (arith, eq_iff k key, eq_iff k other, eq_iff other key, get-put key other value rest)

pub replayed-IsReplay : (stored : CommandResult) → IsReplay stored (replayed stored)
replayed-IsReplay stored = record {
  code = refl;
  body = λ key. get-put "replay" key (bool true) stored.body;
  outcome = refl;
  http_semantic = refl;
  journal_entry_id = refl;
  seq = refl;
}
