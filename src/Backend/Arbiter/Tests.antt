-- ===== src/Backend/Arbiter/Tests.antt =====
-- A turn of the arbiter's idle callback over the sample broker (chamge/amqp-arbiter-backend.c).
use chamge.Rpc.{is_queue_existed, require_reply, string_member}
use chamge.Prelude.{
  ◌≡◌, refl, true, false, none, some, [], ◌∷◌, Text, codes, ret, text_eq, strlen_reaches, cstr,
}
use chamge.Amqp.{
  Net, normal, RpcReply, Envelope, receives, publishes, declares, binds, listens, opens, logs_in,
  opens_channel, ConnectionInfo, ◌>>=◌,
}
use chamge.Samples.{sample_glib, sample_rabbit, sample_config, net}
use chamge.Backend.{Object, response_properties, handle_message, checked, respond}
use chamge.Backend.Tests.{asking}
use chamge.Types.{ok}
use chamge.Backend.Arbiter.Enrolment.{enroll-ok}
use chamge.Backend.Arbiter.{
  enroll, Handlers, process_amqp_message, process_json_message, edge_request,
}

-- A request of the edge "e1" to enrol, for a queue "q".
abbrev pub enrolling : RpcReply × Envelope
enrolling = (
  normal,
  record asking {
    body = some (codes "{\"method\":\"enroll\",\"deviceType\":\"edge\",\"edgeId\":\"e1\"}");
  },
)

abbrev pub active : Object sample_rabbit
active = record { amqp_conn = tt; activated = true; process_id = 1 }

abbrev pub after_turn : Net sample_rabbit
after_turn = record {
  world = [];
  log =
      publishes [] (codes "q") (response_properties none) (codes "{\"result\":\"enrolled\"}")
      ∷ declares true (codes "q")
      ∷ receives
      ∷ [];
}

pub arbiter_turn :
    {S : Type 0} (h : Handlers S) (x : S)
    → process_amqp_message sample_glib sample_rabbit h active (x, net (enrolling ∷ []))
      ≡ ret (true, h.edge_enrolled (codes "e1") x, after_turn)
unfolding process_amqp_message handle_message checked text_eq strlen_reaches respond ◌>>=◌
    is_queue_existed require_reply process_json_message cstr string_member edge_request
arbiter_turn h x = refl

abbrev enrolled_net : Net sample_rabbit
enrolled_net = record {
  world = [];
  log =
      listens (codes "enroll")
      ∷ binds (codes "amq.direct") (codes "enroll") (codes "enroll")
      ∷ declares false (codes "enroll")
      ∷ opens_channel
      ∷ logs_in
      ∷ opens
      ∷ [];
}

enroll_lem : enroll sample_glib sample_rabbit sample_config active (net []) ≡ ret (ok, enrolled_net)
unfolding enroll ◌>>=◌
enroll_lem = refl

enroll-ok_example :
    (info : ConnectionInfo) × (queue : Text) × (sample_rabbit.parse_url (codes "amqp://")
      ≡ some info)
    × (ok ≡ ok)
    × (enrolled_net.log
        ≡ listens queue
          ∷ binds (codes "amq.direct") queue (codes "enroll")
          ∷ declares false (codes "enroll")
          ∷ opens_channel
          ∷ logs_in
          ∷ opens
          ∷ [])
enroll-ok_example =
    enroll-ok sample_glib sample_rabbit sample_config active (net []) enrolled_net ok enroll_lem
