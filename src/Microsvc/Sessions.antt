-- ===== src/Microsvc/Sessions.antt =====
-- src/microsvc/session.rs: the variables of a request.
use sourced_rust.Prelude.{String, Bool, Option, is_some}
use sourced_rust.Prelude.HashMap
use sourced_rust.Prelude.HashMap.{HashMap}

pub record Session : Type 0 where
  pub variables : HashMap String

unfoldable pub from_map : HashMap String → Session
from_map variables = record { variables = variables }

unfoldable pub get : Session → String → Option String
get s key = HashMap.get key s.variables

unfoldable pub user_id : Session → Option String
unfolding get
user_id s = get s "x-hasura-user-id"

unfoldable pub role : Session → Option String
unfolding get
role s = get s "x-hasura-role"

unfoldable pub set : Session → String → String → Session
set s key value = record { variables = HashMap.insert key value s.variables }

unfoldable pub has : Session → String → Bool
has s key = is_some (HashMap.get key s.variables)
