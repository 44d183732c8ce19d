-- ===== src/Agent/Service/Tests.antt =====
-- The agent with a backend of AMQP over the sample broker (agent/arbiter-agent.c).
use chamge.Backend.Arbiter
use chamge.Agent
use chamge.Node
use chamge.Prelude.{true, false, Option, none, some, [], ◌∷◌, Text, codes, text_eq, if◌then◌else◌}
use chamge.Types.{BackendKind, amqp, enrolled, activated}
use chamge.Amqp.{listens, binds, declares, opens_channel, logs_in, opens}
use chamge.Node.{Node, class_init}
use chamge.Samples.{sample_rabbit, net}
use chamge.Arbiter.{ArbiterData, ArbiterBackend, amqp_backend}
use chamge.Options.{LocalOptions}

-- Only "amqp" is known.
abbrev by_nick : Text → Option BackendKind
by_nick t = if text_eq t (codes "amqp") then some amqp else none

abbrev options : LocalOptions
options = record { version = false; host = some (codes "h"); backend = some (codes "amqp") }

abbrev backend : ArbiterBackend sample_rabbit
backend = record {
  implementation = amqp_backend (record { amqp_conn = tt; activated = true; process_id = 1 });
  edge_enrolled = true;
  edge_delisted = true;
  edge_connection_requested = false;
  hub_enrolled = true;
  hub_delisted = true;
}

abbrev started : Node (ArbiterData sample_rabbit)
started = record {
  uid = some (codes "7a");
  state = activated;
  locked = false;
  timers = [];
  self = record {
    kind = amqp;
    arbiter_backend = some backend;
    net = record {
      world = [];
      log =
          listens (codes "enroll")
          ∷ binds (codes "amq.direct") (codes "enroll") (codes "enroll")
          ∷ declares false (codes "enroll")
          ∷ opens_channel
          ∷ logs_in
          ∷ opens
          ∷ [];
    };
  };
}

abbrev deactivated : Node (ArbiterData sample_rabbit)
deactivated = record started {
  state = enrolled;
  self = record (started.self) {
    arbiter_backend = some (record backend {
      implementation = amqp_backend (record { amqp_conn = tt; activated = false; process_id = 0 });
    });
  };
}
