-- ===== src/Backend/Hub/Closure.antt =====
-- A user command at a hub: `user_command` of the class of the backend, and the closure that emits
-- the signal "user-command" (chamge/hub-backend.c and chamge/hub.c).
use chamge.Prelude.{
  Bool, true, false, Option, none, Text, if◌then◌else◌, Run, ret, stop, ◌>>=◌, aborted,
}
use chamge.Types.{ok}
use chamge.Amqp.{Rabbit, Net}
use chamge.Node.{Reply}

-- ChamgeHubBackendPrivate: whether the backend has its hub, and whether the closure is set.
pub record Closure : Type 0 where
  pub hub : Bool
  pub user_command : Bool

-- chamge_hub_backend_set_user_command_handler: whether the argument is not NULL.
pub set_user_command_handler : Bool → Closure → Closure
set_user_command_handler given c = record c { user_command = given }

-- The backend as chamge_hub_enroll leaves it.
unfoldable pub enrolled_closure : Closure
unfolding set_user_command_handler
enrolled_closure = set_user_command_handler true (record { hub = true; user_command = false })

-- chamge_hub_backend_dispose.
pub closure_dispose : Closure → Closure
closure_dispose c = record c { hub = false; user_command = false }

module _ {S : Type 0} (emit : Text → S → Run (Reply × S)) where
  -- chamge_hub_user_command_cb. `emit` is the signal with its handlers: the result is that of the
  -- last, or CHAMGE_RETURN_FAIL, which `ret` holds before, if there is none.
  pub user_command_cb : Bool → Text → S → Run (Reply × S)
  user_command_cb hub cmd s = if hub then emit cmd s else stop aborted

  -- chamge_hub_backend_user_command: with no closure it is CHAMGE_RETURN_OK and no response.
  pub backend_user_command : Closure → Text → S → Run (Reply × S)
  unfolding user_command_cb
  backend_user_command c cmd s =
      if c.user_command
      then user_command_cb c.hub cmd s
      else ret (record { result = ok; out = none; error = none }, s)

-- What `_process_json_message` takes of the call: the response, whatever was returned.
unfoldable pub command_response :
    {r : Rabbit} {S : Type 0}
    → (Text → S × Net r → Run (Reply × (S × Net r)))
    → Closure
    → Text
    → S × Net r
    → Run (Option Text × S × Net r)
unfolding backend_user_command
command_response emit c cmd x =
    backend_user_command emit c cmd x >>= λ (p, y). ret (p.out, y.0, y.1)
