-- ===== src/Backend/UserCommand/Tests.antt =====
-- A user command over the sample broker (chamge/edge-backend.c, chamge/amqp-edge-backend.c).
use chamge.Prelude.{
  ℕ, suc, ◌≡◌, refl, true, none, some, [], ◌∷◌, Text, codes, Run, ret, arith, strlen_reaches,
  text_eq,
}
use chamge.Types.{ok}
use chamge.Amqp.{Net, done, receives, publishes, declares, ◌>>=◌}
use chamge.Rpc.{request_properties, is_queue_existed, require_reply}
use chamge.Node.{Reply}
use chamge.Samples.{sample_glib, sample_rabbit, net}
use chamge.Backend.{Object, response_properties}
use chamge.Backend.Edge.{process_amqp_message}
use chamge.Backend.Command.{await}
use chamge.Backend.UserCommand.{enrolled_closure, command_response, answer_text}
use chamge.Backend.UserCommand.Steps.{delivered}
use chamge.Backend.UserCommand.RoundTrip.{user_command_round_trip}
use chamge.Source.{source_dispatch}

abbrev watched : Object sample_rabbit
watched = record { amqp_conn = tt; activated = true; process_id = 1 }

-- A handler of the signal that counts the commands.
abbrev reply : Reply
reply = record { result = ok; out = some (codes "{\"result\":\"done\"}"); error = none }

abbrev emits : Text → ℕ × Net sample_rabbit → Run (Reply × (ℕ × Net sample_rabbit))
emits cmd (n, s) = ret (reply, (suc n, s))

user_command_round_trip_example :
    (source_dispatch sample_rabbit tt
        (some (
          process_amqp_message sample_glib sample_rabbit
            (command_response emits enrolled_closure)
            watched))
        (0, net (delivered 1 (request_properties (codes "q") (codes "7a")) (codes "{}") ∷ []))
      ≡ ret (
        true,
        1,
        record {
          world = [];
          log =
              publishes []
                (codes "q")
                (response_properties (some (codes "7a")))
                (answer_text (some (codes "{\"result\":\"done\"}")))
              ∷ declares true (codes "q")
              ∷ receives
              ∷ [];
        },
      ))
    × (await sample_glib sample_rabbit 1 tt (codes "7a") (
          net (
            delivered 1
              (response_properties (some (codes "7a")))
              (answer_text (some (codes "{\"result\":\"done\"}")))
            ∷ []))
        ≡ ret (
          done (record {
            body = some (answer_text (some (codes "{\"result\":\"done\"}")));
            error = none;
          }),
          record { world = []; log = receives ∷ [] },
        ))
unfolding strlen_reaches text_eq answer_text is_queue_existed ◌>>=◌ require_reply
user_command_round_trip_example =
    user_command_round_trip sample_glib sample_rabbit emits watched 1 1 0 tt (codes "{}")
      (codes "q") (codes "7a") [] reply 0 1
      (net (delivered 1 (request_properties (codes "q") (codes "7a")) (codes "{}") ∷ []))
      (record { world = []; log = receives ∷ [] })
      (record { world = []; log = declares true (codes "q") ∷ receives ∷ [] })
      (net (
        delivered 1 (response_properties (some (codes "7a")))
          (answer_text (some (codes "{\"result\":\"done\"}")))
        ∷ []))
      [] [] refl refl (omega arith, refl) (omega arith, refl) refl refl refl refl refl refl refl
