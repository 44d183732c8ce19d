-- ===== src/Agent/Requests.antt =====
-- The agent behind the arbiter: what requests do to its lists (agent/arbiter-agent.c,
-- chamge/amqp-arbiter-backend.c), and the round trip with the requests of an edge and a hub.
use chamge.Prelude.{
  ◌≡◌, ◌∙◌, Bool, true, not, ◌&&◌, some, List, Text, codes, ret, arith, text_eq, text_eq_iff,
}
use chamge.Types.{ok}
use chamge.Glib.{Glib}
use chamge.Amqp.{Rabbit, Net}
use chamge.Rpc.{string_member, validate_response}
use chamge.Backend.{Object}
use chamge.Backend.Arbiter.{result_text, process_json_message, process_amqp_message}
use chamge.Backend.Arbiter.Requests.{
  Keeps, process_amqp_message_keeps, edge_asks, edge_request_enroll, edge_request_delist,
}
use chamge.Backend.Arbiter.Answers.{ReadsResult, accepted_answer}
use chamge.Backend.Edge
use chamge.Agent.{
  Agent, agent_handlers, is_enrolled, add_id, delete_id, edge_enrolled_cb, edge_delisted_cb,
  hub_enrolled_cb, hub_delisted_cb,
}
use chamge.Agent.Lists.{
  Distinct, add_id-Distinct, delete_id-Distinct, is_enrolled-add_id, is_enrolled-delete_id,
  text_eq_refl,
}

-- No id is twice in a list.
abbrev pub IsSound : Agent → Type 0
IsSound a = Distinct a.edges × Distinct a.hubs

agent_handlers_Keeps : Keeps agent_handlers IsSound
unfolding edge_enrolled_cb edge_delisted_cb hub_enrolled_cb hub_delisted_cb
agent_handlers_Keeps = record {
  edge_enrolling = λ uid a (p, q). (add_id-Distinct uid a.edges p, q);
  edge_delisting = λ uid a (p, q). (delete_id-Distinct uid a.edges p, q);
  hub_enrolling = λ uid a (p, q). (p, add_id-Distinct uid a.hubs q);
  hub_delisting = λ uid a (p, q). (p, delete_id-Distinct uid a.hubs q);
}

module _ (g : Glib) (r : Rabbit) where
  -- The turns of the idle callback of the arbiter, with the agent behind it.
  pub data Turns (o : Object r) (p : Agent × Net r) : Agent × Net r → Type 0 where
    start : Turns o p p
    turn :
        {q : Agent × Net r} (a : Agent) (s : Net r) (kept : Bool)
        → Turns o p q
        → process_amqp_message g r agent_handlers o q ≡ ret (kept, a, s)
        → Turns o p (a, s)

  -- After any number of turns of the idle callback of the arbiter, whatever messages came, no id is
  -- twice in the agent's lists, if none was before.
  pub Turns-IsSound : {o : Object r} {p q : Agent × Net r} → IsSound p.0 → Turns o p q → IsSound q.0
  Turns-IsSound s start = s
  Turns-IsSound {o} s (turn {q} a t kept before e) =
      process_amqp_message_keeps agent_handlers IsSound agent_handlers_Keeps g r o q.0 a q.1 t kept
        (Turns-IsSound s before) e

-- That the parser reads a request that an edge or a hub has printed.
pub record ReadsRequest (g : Glib) (body id_name device_type method uid : Text) : Type 0 where
  pub request : g.Document
  pub loaded : g.load body ≡ some request
  pub reads_type : string_member g request (codes "deviceType") ≡ some device_type
  pub reads_method : string_member g request (codes "method") ≡ some method
  pub reads_uid : string_member g request id_name ≡ some uid

delete_id-add_id :
    (uid other : Text) (l : List Text)
    → Distinct l
    → is_enrolled (delete_id uid (add_id uid l)) (some other)
      ≡ (not (text_eq uid other) && is_enrolled l (some other))
delete_id-add_id uid other l d =
    let out = is_enrolled-delete_id uid other (add_id uid l) (add_id-Distinct uid l d) in
    ground (arith, is_enrolled-add_id uid other l, text_eq_iff uid other, text_eq_iff other uid)

module _ (g : Glib) (uid : Text) (a : Agent) where
  pub edge_enrolled_answer :
      ReadsRequest g
        (Edge.request_body (codes "enroll") uid)
        (codes "edgeId")
        (codes "edge")
        (codes "enroll")
        uid
      → process_json_message agent_handlers g (Edge.request_body (codes "enroll") uid) a
        ≡ (result_text (codes "enrolled"), edge_enrolled_cb uid a)
  edge_enrolled_answer w =
      edge_asks agent_handlers g (Edge.request_body (codes "enroll") uid) w.request (codes "enroll")
        uid a w.loaded w.reads_type w.reads_method w.reads_uid
      ∙ edge_request_enroll agent_handlers uid a

  edge_delisted_answer :
      ReadsRequest g
        (Edge.request_body (codes "delist") uid)
        (codes "edgeId")
        (codes "edge")
        (codes "delist")
        uid
      → process_json_message agent_handlers g (Edge.request_body (codes "delist") uid) a
        ≡ (result_text (codes "delisted"), edge_delisted_cb uid a)
  edge_delisted_answer w =
      edge_asks agent_handlers g (Edge.request_body (codes "delist") uid) w.request (codes "delist")
        uid a w.loaded w.reads_type w.reads_method w.reads_uid
      ∙ edge_request_delist agent_handlers uid a

module _ (g : Glib) (uid : Text) (a : Agent) where
  -- The agent whose arbiter takes the two requests of an edge in turn, and the answers.
  abbrev pub edge_session : Text × Text × Agent
  edge_session =
      let (first, b) =
        process_json_message agent_handlers g (Edge.request_body (codes "enroll") uid) a in
      let (second, c) =
        process_json_message agent_handlers g (Edge.request_body (codes "delist") uid) b in
      (first, second, c)

  -- If no id is twice in the agent's list of edges, and the parser reads what an edge prints and
  -- what the arbiter answers, the agent's arbiter takes the request of an edge to enrol, and then
  -- that to delist, the edge accepts both answers, the edge is enrolled between the two requests,
  -- and afterwards it is not, while every other edge is enrolled exactly if it was before, and the
  -- hubs are the same.
  pub edge_round_trip :
      Distinct a.edges
      → ReadsRequest g
          (Edge.request_body (codes "enroll") uid)
          (codes "edgeId")
          (codes "edge")
          (codes "enroll")
          uid
      → ReadsRequest g
          (Edge.request_body (codes "delist") uid)
          (codes "edgeId")
          (codes "edge")
          (codes "delist")
          uid
      → ReadsResult g (codes "enrolled")
      → ReadsResult g (codes "delisted")
      → (validate_response g (some edge_session.0) (codes "enrolled") ≡ ok)
        × (validate_response g (some edge_session.1) (codes "delisted") ≡ ok)
        × (is_enrolled
              (process_json_message agent_handlers g
                (Edge.request_body (codes "enroll") uid)
                a).1.edges
              (some uid)
            ≡ true)
        × ((other : Text)
            → is_enrolled edge_session.2.edges (some other)
              ≡ (not (text_eq uid other) && is_enrolled a.edges (some other)))
        × (edge_session.2.hubs ≡ a.hubs)
  unfolding edge_enrolled_cb edge_delisted_cb
  edge_round_trip d w₁ w₂ w₃ w₄ =
      let e₁ = edge_enrolled_answer g uid a w₁ in
      let e₂ = edge_delisted_answer g uid (edge_enrolled_cb uid a) w₂ in
      let first = accepted_answer g (codes "enrolled") w₃ in
      let second = accepted_answer g (codes "delisted") w₄ in
      let found = is_enrolled-add_id uid uid a.edges in
      (
        ground arith,
        ground arith,
        ground (arith, text_eq_refl uid),
        (λ other. ground (arith, delete_id-add_id uid other a.edges d)),
        ground arith,
      )
