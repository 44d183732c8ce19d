-- ===== src/Hub/Delisting/Tests.antt =====
-- A hub that delists over the sample broker (chamge/hub.c).
use chamge.Prelude.{
  ◌≡◌, refl, true, false, none, some, [], ◌∷◌, List, codes, ret, arith, strncmp_eq, cstr, text_eq,
}
use chamge.Types.{ok, amqp, null, enrolled}
use chamge.Amqp.{
  Rabbit, Net, Event, receives, publishes, listens, declares, opens, logs_in, opens_channel,
  closes_channel, closes_connection, destroys,
}
use chamge.Rpc.{
  request_properties, rpc_request, await, received, is_queue_existed, require_reply, declare_queue,
  publish, listen, guard_reply, answers, response_of, validate_response, same_string, string_member,
}
use chamge.Samples.{sample_glib, sample_config, answering}
use chamge.Backend.{Object, dispose, remove_source}
use chamge.Backend.Hub.{request_body, validate_hub_response, check_response}
use chamge.Node.{Node, init}
use chamge.Node.Calls.{delists, call}
use chamge.Node.Signal.{silent}
use chamge.Node.Rule.{IsPassive}
use chamge.Hub.{HubData, HubBackend, amqp_backend, hub_class}
use chamge.Hub.Delisting.{IsDelisting, delists-IsDelisting}

abbrev pub delisting : Rabbit
delisting = answering (codes "{\"result\":\"delisted\"}")

abbrev pub object : Object delisting
object = record { amqp_conn = tt; activated = false; process_id = 0 }

abbrev pub backend : HubBackend delisting
backend = record { implementation = amqp_backend object; user_command = true }

abbrev pub enrolled_hub : Node (HubData delisting)
enrolled_hub = record {
  uid = some (codes "h1");
  state = enrolled;
  locked = false;
  timers = [];
  self = record { kind = amqp; hub_backend = some backend; net = record { world = []; log = [] } };
}

-- Without the last event.
abbrev log_after : List Event
log_after =
    destroys
    ∷ closes_connection
    ∷ closes_channel
    ∷ receives
    ∷ listens (codes "amq.gen")
    ∷ publishes (codes "amq.direct") (codes "enroll")
        (request_properties (codes "amq.gen") (codes "7a"))
        (request_body (codes "delist") (codes "h1"))
    ∷ declares false []
    ∷ declares true (codes "enroll")
    ∷ opens_channel
    ∷ logs_in
    ∷ opens
    ∷ []

abbrev pub delisted_hub : Node (HubData delisting)
delisted_hub = record enrolled_hub {
  state = null;
  self = record {
    kind = amqp;
    hub_backend = none;
    net = record { world = []; log = destroys ∷ log_after };
  };
}

pub delists_lem :
    call sample_glib (hub_class sample_glib delisting sample_config) silent delists enrolled_hub
    ≡ ret (ok, delisted_hub)
unfolding call chamge.Node.delist hub_class chamge.Node.run_method chamge.Hub.hub_delist dispose
    remove_source chamge.Backend.Hub.delist chamge.Backend.Hub.request chamge.Amqp.◌>>=◌ rpc_request
    await received is_queue_existed require_reply declare_queue publish listen guard_reply answers
    response_of strncmp_eq cstr validate_response same_string string_member text_eq
    validate_hub_response check_response
delists_lem = refl

pub silent-IsPassive : IsPassive {S = HubData delisting} silent
silent-IsPassive = record { passes = λ s n m h. ground arith }

delists-IsDelisting_example :
    (delisted_hub.state ≡ null)
    × (delisted_hub.self.hub_backend ≡ none)
    × (t : Net delisting) × (delisted_hub.self.net ≡ dispose delisting object t)
    × (destroys ∷ log_after ≡ destroys ∷ t.log)
    × IsDelisting sample_glib delisting sample_config (some (codes "h1")) (enrolled_hub.self.net) t
delists-IsDelisting_example =
    delists-IsDelisting sample_glib delisting sample_config silent enrolled_hub delisted_hub backend
      object silent-IsPassive refl refl delists_lem
