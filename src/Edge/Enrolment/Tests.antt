-- ===== src/Edge/Enrolment/Tests.antt =====
-- A new edge enrols over the sample broker (chamge/edge.c).
use chamge.Prelude.{
  ◌≡◌, refl, true, false, none, some, [], ◌∷◌, List, codes, ret, arith, strncmp_eq, cstr, text_eq,
}
use chamge.Types.{ok, amqp, null, enrolled}
use chamge.Amqp.{
  Rabbit, Net, Event, receives, publishes, listens, declares, opens, logs_in, opens_channel,
}
use chamge.Rpc.{
  request_properties, rpc_login, rpc_request, await, received, is_queue_existed, require_reply,
  declare_queue, publish, listen, guard_reply, answers, response_of, validate_response, same_string,
  string_member,
}
use chamge.Samples.{sample_glib, sample_config, answering}
use chamge.Backend.Edge.{request_body}
use chamge.Node.{Node, init}
use chamge.Node.Calls.{enrolls, call}
use chamge.Node.Signal.{silent}
use chamge.Node.Rule.{IsPassive}
use chamge.Edge.{EdgeData, amqp_backend, edge_class}
use chamge.Edge.Enrolment.{IsAmqp, IsEnrolment, enrolls-IsEnrolment}

abbrev pub enrolling : Rabbit
enrolling = answering (codes "{\"result\":\"enrolled\"}")

abbrev pub new_edge : Node (EdgeData enrolling)
new_edge =
    init (some (codes "e1"))
      (record { kind = amqp; edge_backend = none; net = record { world = []; log = [] } })

abbrev log_after : List Event
log_after =
    receives
    ∷ listens (codes "amq.gen")
    ∷ publishes (codes "amq.direct") (codes "enroll")
        (request_properties (codes "amq.gen") (codes "7a"))
        (request_body (codes "enroll") (codes "e1"))
    ∷ declares false []
    ∷ declares true (codes "enroll")
    ∷ opens_channel
    ∷ logs_in
    ∷ opens
    ∷ []

abbrev pub enrolled_edge : Node (EdgeData enrolling)
enrolled_edge = record new_edge {
  state = enrolled;
  self = record {
    kind = amqp;
    edge_backend = some (record {
      implementation = amqp_backend (record { amqp_conn = tt; activated = false; process_id = 0 });
      user_command = true;
    });
    net = record { world = []; log = log_after };
  };
}

pub enrolls_lem :
    call sample_glib (edge_class sample_glib enrolling sample_config) silent enrolls new_edge
    ≡ ret (ok, enrolled_edge)
unfolding call chamge.Node.enroll init edge_class chamge.Node.run_method chamge.Edge.edge_enroll
    chamge.Backend.object_init chamge.Backend.Edge.enroll chamge.Backend.Edge.request
    chamge.Amqp.◌>>=◌ rpc_login rpc_request await received is_queue_existed require_reply
    declare_queue publish listen guard_reply answers response_of strncmp_eq cstr validate_response
    same_string string_member text_eq
enrolls_lem = refl

pub silent-IsPassive : IsPassive {S = EdgeData enrolling} silent
silent-IsPassive = record { passes = λ s n m h. ground arith }

pub new_edge-IsAmqp : IsAmqp sample_glib enrolling sample_config new_edge.self
unfolding init
new_edge-IsAmqp = record { chosen = refl; speaking = λ b has. absurd (ground arith) }

enrolls-IsEnrolment_example :
    (new_edge.state ≡ null)
    × (enrolled_edge.state ≡ enrolled)
    × IsEnrolment sample_glib enrolling sample_config (some (codes "e1")) [] log_after
unfolding init
enrolls-IsEnrolment_example =
    enrolls-IsEnrolment sample_glib enrolling sample_config silent new_edge enrolled_edge
      silent-IsPassive new_edge-IsAmqp enrolls_lem
