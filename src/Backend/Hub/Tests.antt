-- ===== src/Backend/Hub/Tests.antt =====
-- The activation of a hub and a user command over the sample broker (chamge/amqp-hub-backend.c).
use chamge.Prelude.{
  ℕ, suc, none, Text, Run, arith, strlen_reaches, ◌≡◌, refl, true, false, some, [], ◌∷◌, List,
  codes, ret, text_eq, cstr, strncmp_eq,
}
use chamge.Types.{ok, fail}
use chamge.Amqp.{Net, Event, done, receives, publishes, listens, declares, guard, pure, ◌>>=◌}
use chamge.Samples.{sample_glib, sample_rabbit, sample_config, net}
use chamge.Rpc.{
  rpc_request, await, received, is_queue_existed, require_reply, declare_queue, publish, listen,
  guard_reply, answers, response_of, validate_response, request_properties, same_string,
  string_member, rpc_subscribe,
}
use chamge.Rpc.Tests.{activating, after_subscription}
use chamge.Backend.{Object, response_properties}
use chamge.Node.{Reply}
use chamge.Backend.Command
use chamge.Backend.UserCommand.{answer_text}
use chamge.Backend.UserCommand.Steps.{delivered}
use chamge.Backend.Hub.{
  process_amqp_message, activate, request_body, accepted, subscribed, request, check_response,
  validate_hub_response,
}
use chamge.Backend.Hub.Closure.{enrolled_closure, command_response}
use chamge.Backend.Hub.RoundTrip.{hub_command_round_trip}

abbrev pub fresh : Object sample_rabbit
fresh = record { amqp_conn = tt; activated = false; process_id = 0 }

abbrev pub watching : Object sample_rabbit
watching = record { amqp_conn = tt; activated = true; process_id = 1 }

abbrev pub requested_log : List Event
requested_log =
    receives
    ∷ listens (codes "amq.gen")
    ∷ publishes (codes "amq.direct") (codes "enroll")
        (request_properties (codes "amq.gen") (codes "7a"))
        (request_body (codes "activate") (codes "e1"))
    ∷ declares false []
    ∷ declares true (codes "enroll")
    ∷ []

pub hub_activate_lem :
    activate sample_glib sample_rabbit sample_config (some (codes "e1")) fresh (net activating)
    ≡ ret (ok, watching, after_subscription requested_log)
unfolding activate accepted subscribed request check_response validate_hub_response ◌>>=◌ guard pure
    rpc_request await received is_queue_existed require_reply declare_queue publish listen
    guard_reply answers response_of strncmp_eq cstr validate_response same_string string_member
    text_eq rpc_subscribe
hub_activate_lem = refl

-- A handler of the signal that counts the commands, and gives no response.
abbrev reply : Reply
reply = record { result = fail; out = none; error = none }

abbrev emits : Text → ℕ × Net sample_rabbit → Run (Reply × (ℕ × Net sample_rabbit))
emits cmd (n, s) = ret (reply, (suc n, s))

hub_command_round_trip_example :
    (process_amqp_message sample_glib sample_rabbit
        (command_response emits enrolled_closure)
        watching
        (0, net (delivered 1 (request_properties (codes "q") (codes "7a")) (codes "{}") ∷ []))
      ≡ ret (
        true,
        1,
        record {
          world = [];
          log =
              publishes [] (codes "q") (response_properties (some (codes "7a"))) (answer_text none)
              ∷ declares true (codes "q")
              ∷ receives
              ∷ [];
        },
      ))
    × (Command.await sample_glib sample_rabbit 1 tt
          (codes "7a")
          (net (delivered 1 (response_properties (some (codes "7a"))) (answer_text none) ∷ []))
        ≡ ret (
          done (record { body = some (answer_text none); error = none }),
          record { world = []; log = receives ∷ [] },
        ))
unfolding strlen_reaches text_eq answer_text is_queue_existed ◌>>=◌ require_reply
hub_command_round_trip_example =
    hub_command_round_trip sample_glib sample_rabbit emits watching 1 1 0 tt (codes "{}")
      (codes "q") (codes "7a") [] reply 0 1
      (net (delivered 1 (request_properties (codes "q") (codes "7a")) (codes "{}") ∷ []))
      (record { world = []; log = receives ∷ [] })
      (record { world = []; log = declares true (codes "q") ∷ receives ∷ [] })
      (net (delivered 1 (response_properties (some (codes "7a"))) (answer_text none) ∷ [])) [] []
      refl refl (omega arith, refl) (omega arith, refl) refl refl refl refl refl refl refl
