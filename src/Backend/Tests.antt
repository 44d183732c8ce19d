-- ===== src/Backend/Tests.antt =====
-- The backends over the sample broker (chamge/amqp-edge-backend.c and its siblings).
use chamge.Prelude.{
  ℕ, suc, ◌≡◌, ◌⊎◌, ◌↔◌, refl, true, false, none, some, List, [], ◌∷◌, Text, codes, Run, ret, stop,
  null_read, text_eq, strlen_reaches, cstr,
}
use chamge.Amqp.{
  Net, Event, normal, Envelope, receives, publishes, declares, listens, opens, logs_in,
  opens_channel, ◌>>=◌,
}
use chamge.Samples.{sample_glib, sample_rabbit, sample_config, no_properties, net}
use chamge.Rpc.{request_properties, is_queue_existed, require_reply}
use chamge.Rpc.Tests.{late, rpc_login_sample, rpc_request_unanswered}
use chamge.Backend.{Object, Request, response_properties, checked, handle_message, respond}
use chamge.Backend.Messages.{IsJson, IsName, IsSent, checked_iff, handle_message_sends}
use chamge.Backend.Silence.{hub_enroll_unanswered}
use chamge.Backend.Hub

-- A request with a queue for the reply.
abbrev pub asking : Envelope
asking = record {
  channel = 1;
  properties = record no_properties {
    content_type = some (codes "application/json");
    reply_to = some (codes "q");
  };
  body = some (codes "{}");
}

checked_iff_example : ((request : Request) × (checked sample_glib normal asking ≡ some request)) ↔ (
    (body : List ℕ) × (queue : Text) × (normal ≡ normal)
    × (some (codes "{}") ≡ some body)
    × IsJson sample_glib (some (codes "application/json"))
    × IsName (some (codes "q")) queue)
checked_iff_example = checked_iff sample_glib normal asking

-- A handler that counts the messages, and answers each with "ok".
abbrev counts : List ℕ → ℕ × Net sample_rabbit → Run (Text × ℕ × Net sample_rabbit)
counts body (n, s) = ret (codes "ok", suc n, s)

abbrev answered_net : Net sample_rabbit
answered_net = record {
  world = [];
  log =
      publishes [] (codes "q") (response_properties none) (codes "ok")
      ∷ declares true (codes "q")
      ∷ [];
}

handled_lem :
    handle_message sample_glib sample_rabbit counts tt normal asking (0, net [])
    ≡ ret (1, answered_net)
unfolding handle_message checked text_eq strlen_reaches respond ◌>>=◌ is_queue_existed require_reply
    cstr
handled_lem = refl

handle_message_sends_example :
    (checked sample_glib normal asking ≡ none) × (◌≡◌ {A = ℕ} 1 0) × (answered_net ≡ net [])
    ⊎ ((request : Request) × (response : Text) × (u : Net sample_rabbit) × (checked sample_glib
            normal asking
          ≡ some request)
        × (counts request.body (0, net []) ≡ ret (response, 1, u))
        × IsSent sample_glib sample_rabbit tt asking.channel request response u answered_net)
handle_message_sends_example =
    handle_message_sends sample_glib sample_rabbit counts tt normal asking 0 1 (net []) answered_net
      handled_lem

abbrev fresh : Object sample_rabbit
fresh = record { amqp_conn = tt; activated = false; process_id = 0 }

-- The log after a login, and after a request that was not answered.
abbrev logged_in : List Event
logged_in = opens_channel ∷ logs_in ∷ opens ∷ []

abbrev unanswered : Text → Net sample_rabbit
unanswered request = record {
  world = [];
  log =
      receives
      ∷ listens (codes "amq.gen")
      ∷ publishes (codes "amq.direct") (codes "enroll")
          (request_properties (codes "amq.gen") (codes "7a")) request
      ∷ declares false []
      ∷ declares true (codes "enroll")
      ∷ logged_in;
}

hub_enroll_unanswered_example :
    Hub.enroll sample_glib sample_rabbit sample_config (some (codes "h1")) fresh (net [])
    ≡ stop null_read
hub_enroll_unanswered_example =
    hub_enroll_unanswered sample_glib sample_rabbit sample_config fresh (codes "h1") tt (net [])
      (record { world = []; log = logged_in })
      (unanswered (Hub.request_body (codes "enroll") (codes "h1"))) late (rpc_login_sample [])
      (rpc_request_unanswered (Hub.request_body (codes "enroll") (codes "h1")) logged_in) refl
