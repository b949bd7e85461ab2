-- ===== src/Kernel/Requests.antt =====
-- Requests to the kernel in a row, one after the other.
use murrmure.Prelude.{String, List, [], ◌∷◌}
use murrmure.Dict.{string_key, nat_key}
use murrmure.Json.{Fields}
use murrmure.Contracts.Commands.{KernelCommand}
use murrmure.Kernel.World.{World, Ports}
use murrmure.Kernel.Execute.{execute, append_space_journal}

-- What a caller asks for: a command, or an entry in the journal of a space.
pub data Request : Type 0 where
  run_kernel : KernelCommand → Request
  append_space : (scope_id type : String) → Fields → (actor_id credential_id : String) → Request

abbrev pub serve : Ports → Request → World → World
serve ports (run_kernel command) w = (execute ports command w).1
serve ports (append_space scope_id type payload actor_id credential_id) w =
    (append_space_journal ports scope_id type payload actor_id credential_id w).1

-- Callers one after the other, also past one whose request rejects.
unfoldable pub history : Ports → List Request → World → World
unfolding execute append_space_journal
history ports [] w = w
history ports (request ∷ requests) w = history ports requests (serve ports request w)
