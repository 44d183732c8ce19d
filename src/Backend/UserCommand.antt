-- ===== src/Backend/UserCommand.antt =====
-- A user command at an edge: `user_command` of the class of the backend, and the closure
-- that emits the signal "user-command" (chamge/edge-backend.c and chamge/edge.c).
pub mod RoundTrip
pub mod Steps
pub mod Tests
use chamge.Prelude.{
  Bool, true, false, Option, none, some, Text, codes, if◌then◌else◌, Run, ret, stop, ◌>>=◌, aborted,
}
use chamge.Types.{ok}
use chamge.Amqp.{Rabbit, Net}
use chamge.Node.{Reply}

-- ChamgeEdgeBackendPrivate: whether the backend has its edge, and whether the closure is set.
pub record Closure : Type 0 where
  pub edge : Bool
  pub user_command : Bool

-- chamge_edge_backend_set_user_command_handler: whether the argument is not NULL.
pub set_user_command_handler : Bool → Closure → Closure
set_user_command_handler given c = record c { user_command = given }

-- The backend as chamge_edge_enroll leaves it.
pub enrolled_closure : Closure
unfolding set_user_command_handler
enrolled_closure = set_user_command_handler true (record { edge = true; user_command = false })

-- chamge_edge_backend_dispose.
pub closure_dispose : Closure → Closure
closure_dispose c = record c { edge = false; user_command = false }

module _ {S : Type 0} (emit : Text → S → Run (Reply × S)) where
  -- chamge_edge_user_command_cb. `emit` is the signal with its handlers: the result is that of the
  -- last, or CHAMGE_RETURN_FAIL, which `ret` holds before, if there is none.
  pub user_command_cb : Bool → Text → S → Run (Reply × S)
  user_command_cb edge cmd s = if edge then emit cmd s else stop aborted

  -- chamge_edge_backend_user_command: with no closure it is CHAMGE_RETURN_OK and no response.
  pub backend_user_command : Closure → Text → S → Run (Reply × S)
  unfolding user_command_cb
  backend_user_command c cmd s =
      if c.user_command
      then user_command_cb c.edge cmd s
      else ret (record { result = ok; out = none; error = none }, s)

-- What `_process_json_message` takes of the call: the response, whatever was returned.
pub command_response :
    {r : Rabbit} {S : Type 0}
    → (Text → S × Net r → Run (Reply × (S × Net r)))
    → Closure
    → Text
    → S × Net r
    → Run (Option Text × S × Net r)
unfolding backend_user_command
command_response emit c cmd x =
    backend_user_command emit c cmd x >>= λ (p, y). ret (p.out, y.0, y.1)

-- The text that goes back.
unfoldable pub answer_text : Option Text → Text
answer_text none = codes "{\"result\":\"not ok\"}"
answer_text (some text) = text
