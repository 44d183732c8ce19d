-- ===== src/Backend/Edge/Tests.antt =====
-- The activation of an edge over the sample broker (chamge/amqp-edge-backend.c).
use chamge.Prelude.{
  ◌≡◌, refl, true, false, some, [], ◌∷◌, List, codes, ret, text_eq, cstr, strncmp_eq,
}
use chamge.Types.{ok}
use chamge.Amqp.{Event, receives, publishes, listens, declares, guard, pure, ◌>>=◌}
use chamge.Samples.{sample_glib, sample_rabbit, sample_config, net}
use chamge.Rpc.{
  rpc_request, await, received, is_queue_existed, require_reply, declare_queue, publish, listen,
  guard_reply, answers, response_of, validate_response, request_properties, same_string,
  string_member, rpc_subscribe,
}
use chamge.Rpc.Tests.{activating, after_subscription}
use chamge.Backend.{Object}
use chamge.Backend.Edge.{activate, request_body, accepted, subscribed, request}

abbrev pub fresh : Object sample_rabbit
fresh = record { amqp_conn = tt; activated = false; process_id = 0 }

abbrev pub watching : Object sample_rabbit
watching = record { amqp_conn = tt; activated = true; process_id = 1 }

abbrev pub requested_log : List Event
requested_log =
    receives
    ∷ listens (codes "amq.gen")
    ∷ publishes (codes "amq.direct") (codes "enroll")
        (request_properties (codes "amq.gen") (codes "7a"))
        (request_body (codes "activate") (codes "e1"))
    ∷ declares false []
    ∷ declares true (codes "enroll")
    ∷ []

pub activate_lem :
    activate sample_glib sample_rabbit sample_config (some (codes "e1")) fresh (net activating)
    ≡ ret (ok, watching, after_subscription requested_log)
unfolding activate accepted subscribed request ◌>>=◌ guard pure rpc_request await received
    is_queue_existed require_reply declare_queue publish listen guard_reply answers response_of
    strncmp_eq cstr validate_response same_string string_member text_eq rpc_subscribe
activate_lem = refl
