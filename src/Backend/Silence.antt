-- ===== src/Backend/Silence.antt =====
-- What an edge and a hub do when the arbiter does not answer (chamge/amqp-edge-backend.c and
-- chamge/amqp-hub-backend.c): the wait ends with CHAMGE_RETURN_OK all the same.
use chamge.Prelude.{
  ℕ, ◌≡◌, true, Option, none, some, Text, is_some, Run, ret, stop, null_read, arith, codes,
}
use chamge.Types.{fail}
use chamge.Glib.{Glib}
use chamge.Amqp.{Rabbit, Net, Outcome, done, ◌>>=◌}
use chamge.Rpc.{rpc_request, rpc_login, Answer, validate_response}
use chamge.Rpc.Await.{IsAnswer, gave_up, answered}
use chamge.Rpc.Trace.{rpc_request-done}
use chamge.Backend.{Config, Object}
use chamge.Backend.Edge
use chamge.Backend.Hub

abbrev pub requested_edge :
    (g : Glib) (r : Rabbit)
    → Config
    → r.Connection
    → Text
    → Text
    → Net r
    → Run (Outcome Answer × Net r)
requested_edge g r cfg conn method uid =
    rpc_request g r conn cfg.amqp_channel (Edge.request_body method uid)
      (some cfg.enroll_exchange_name) (some cfg.enroll_queue_name)

abbrev pub requested_hub :
    (g : Glib) (r : Rabbit)
    → Config
    → r.Connection
    → Text
    → Text
    → Net r
    → Run (Outcome Answer × Net r)
requested_hub g r cfg conn method uid =
    rpc_request g r conn cfg.amqp_channel (Hub.request_body method uid)
      (some cfg.enroll_exchange_name) (some cfg.enroll_queue_name)

no_body :
    (g : Glib) (r : Rabbit) (conn : r.Connection) (channel : ℕ) (request : Text)
    (exchange queue : Option Text) (s t : Net r) (a : Answer)
    → rpc_request g r conn channel request exchange queue s ≡ ret (done a, t)
    → is_some a.error ≡ true
    → a.body ≡ none
no_body g r conn channel request exchange queue s t a h late =
    let (q, reply_queue, cid, n, nonzero, named, l, pos, bound, i) =
      rpc_request-done g r conn channel request exchange queue s t a h in
    go cid i
  where
    go : (cid : Text) → IsAnswer r cid a → a.body ≡ none
    go cid (gave_up e b) = b
    go cid (answered envelope handed e f b) = absurd (ground arith)

module _ (g : Glib) (r : Rabbit) (cfg : Config) (o : Object r) where
  -- If the login went well, and the wait for the answer to the request to enrol ended in an error,
  -- the enrolment of an edge returns CHAMGE_RETURN_FAIL.
  edge_enroll_unanswered :
      (uid : Text) (x : Unit {0}) (s u t : Net r) (a : Answer)
      → rpc_login g r o.amqp_conn cfg.amqp_uri cfg.amqp_channel s ≡ ret (done x, u)
      → requested_edge g r cfg o.amqp_conn (codes "enroll") uid u ≡ ret (done a, t)
      → is_some a.error ≡ true
      → Edge.enroll g r cfg (some uid) o s ≡ ret (fail, t)
  unfolding Edge.enroll Edge.request ◌>>=◌ validate_response
  edge_enroll_unanswered uid x s u t a login h late = ground (
    arith,
    no_body g r o.amqp_conn cfg.amqp_channel (Edge.request_body (codes "enroll") uid)
        (some cfg.enroll_exchange_name) (some cfg.enroll_queue_name) u t a h late,
  )

  -- If the login went well, and the wait for the answer to the request to enrol ended in an error,
  -- the enrolment of a hub reads a NULL pointer.
  pub hub_enroll_unanswered :
      (uid : Text) (x : Unit {0}) (s u t : Net r) (a : Answer)
      → rpc_login g r o.amqp_conn cfg.amqp_uri cfg.amqp_channel s ≡ ret (done x, u)
      → requested_hub g r cfg o.amqp_conn (codes "enroll") uid u ≡ ret (done a, t)
      → is_some a.error ≡ true
      → Hub.enroll g r cfg (some uid) o s ≡ stop null_read
  unfolding Hub.enroll Hub.request ◌>>=◌
  hub_enroll_unanswered uid x s u t a login h late = ground (
    arith,
    no_body g r o.amqp_conn cfg.amqp_channel (Hub.request_body (codes "enroll") uid)
        (some cfg.enroll_exchange_name) (some cfg.enroll_queue_name) u t a h late,
  )
