-- ===== src/Agent/Tests.antt =====
-- The lists of an agent with one or two ids (agent/arbiter-agent.c).
use chamge.Prelude.{◌≡◌, refl, some, List, [], ◌∷◌, Text, codes, text_eq, not, ◌&&◌}
use chamge.Samples.{sample_glib, sample_rabbit}
use chamge.Types.{ok, null, activated}
use chamge.Prelude.{true, false, ret}
use chamge.Node
use chamge.Node.{
  Node, Class, Reply, class_init, get_state, run_method, commit_locked, lock, unlock, after,
  default_method,
}
use chamge.Node.Signal.{silent}
use chamge.Agent.{startup, enroll, activate, must_be_ok}
use chamge.Rpc.{validate_response, string_member}
use chamge.Backend.Edge
use chamge.Backend.Edge.{request_body}
use chamge.Backend.Arbiter.{process_json_message, result_text}
use chamge.Backend.Arbiter.Tests.{after_turn, arbiter_turn}
use chamge.Agent.{Agent, agent_handlers, edge_enrolled_cb, is_enrolled}
use chamge.Backend.Arbiter.Answers.{ReadsResult}
use chamge.Agent.Requests.{
  IsSound, start, turn, Turns-IsSound, ReadsRequest, edge_session, edge_round_trip,
}
use chamge.Agent.Lists.{Distinct}

abbrev ids : List Text
ids = codes "a" ∷ codes "b" ∷ []

ids-Distinct : Distinct ids
unfolding is_enrolled text_eq
ids-Distinct = (refl, (refl, tt))

abbrev pub hub_ids : List Text
hub_ids = codes "h0" ∷ codes "h1" ∷ []

pub hub_ids-Distinct : Distinct hub_ids
unfolding is_enrolled text_eq
hub_ids-Distinct = (refl, (refl, tt))

abbrev nobody : Agent
nobody = record { edges = []; hubs = [] }

-- A turn in which the edge "e1" enrols.
Turns-IsSound_example : IsSound (edge_enrolled_cb (codes "e1") nobody)
Turns-IsSound_example =
    Turns-IsSound sample_glib sample_rabbit (tt, tt)
      (turn (edge_enrolled_cb (codes "e1") nobody) after_turn true start
        (arbiter_turn agent_handlers nobody))

pub reads_enroll :
    ReadsRequest sample_glib
      (Edge.request_body (codes "enroll") (codes "e1"))
      (codes "edgeId")
      (codes "edge")
      (codes "enroll")
      (codes "e1")
unfolding request_body text_eq string_member
reads_enroll = record {
  request =
      codes "method"
      ∷ codes "enroll"
      ∷ codes "deviceType"
      ∷ codes "edge"
      ∷ codes "edgeId"
      ∷ codes "e1"
      ∷ [];
  loaded = refl;
  reads_type = refl;
  reads_method = refl;
  reads_uid = refl;
}

reads_delist :
    ReadsRequest sample_glib
      (Edge.request_body (codes "delist") (codes "e1"))
      (codes "edgeId")
      (codes "edge")
      (codes "delist")
      (codes "e1")
unfolding request_body text_eq string_member
reads_delist = record {
  request =
      codes "method"
      ∷ codes "delist"
      ∷ codes "deviceType"
      ∷ codes "edge"
      ∷ codes "edgeId"
      ∷ codes "e1"
      ∷ [];
  loaded = refl;
  reads_type = refl;
  reads_method = refl;
  reads_uid = refl;
}

reads_enrolled : ReadsResult sample_glib (codes "enrolled")
unfolding result_text text_eq string_member
reads_enrolled = record {
  answer = codes "result" ∷ codes "enrolled" ∷ [];
  loaded = refl;
  reads_result = refl;
}

reads_delisted : ReadsResult sample_glib (codes "delisted")
unfolding result_text text_eq string_member
reads_delisted = record {
  answer = codes "result" ∷ codes "delisted" ∷ [];
  loaded = refl;
  reads_result = refl;
}

abbrev two_edges : Agent
two_edges = record { edges = ids; hubs = [] }

edge_round_trip_example :
    (validate_response sample_glib
        (some (edge_session sample_glib (codes "e1") two_edges).0)
        (codes "enrolled")
      ≡ ok)
    × (validate_response sample_glib
          (some (edge_session sample_glib (codes "e1") two_edges).1)
          (codes "delisted")
        ≡ ok)
    × (is_enrolled
          (process_json_message agent_handlers sample_glib
            (Edge.request_body (codes "enroll") (codes "e1"))
            two_edges).1.edges
          (some (codes "e1"))
        ≡ true)
    × ((other : Text)
        → is_enrolled (edge_session sample_glib (codes "e1") two_edges).2.edges (some other)
          ≡ (not (text_eq (codes "e1") other) && is_enrolled ids (some other)))
    × ((edge_session sample_glib (codes "e1") two_edges).2.hubs ≡ [])
edge_round_trip_example =
    edge_round_trip sample_glib (codes "e1") two_edges ids-Distinct reads_enroll reads_delist
      reads_enrolled reads_delisted

abbrev base : Class (Unit {0})
base = class_init

abbrev new_arbiter : Node (Unit {0})
new_arbiter = record {
  uid = some (codes "a1");
  state = null;
  locked = false;
  timers = [];
  self = tt;
}

startup_lem :
    startup sample_glib base silent new_arbiter ≡ ret (record new_arbiter { state = activated })
unfolding startup enroll activate must_be_ok get_state Node.enroll Node.activate class_init
    run_method commit_locked lock unlock after default_method
startup_lem = refl
