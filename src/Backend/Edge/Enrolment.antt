-- ===== src/Backend/Edge/Enrolment.antt =====
-- What an enrolment and a delisting of an edge have sent and taken (chamge/amqp-edge-backend.c).
use chamge.Prelude.{◌≡◌, ◌∙◌, ap, sym, some, List, ◌∷◌, Text, codes, Run, ret, stop, arith, subst}
use chamge.Types.{ok}
use chamge.Glib.{Glib}
use chamge.Amqp.{
  Rabbit, Net, Outcome, done, failed, Event, ConnectionInfo, opens, logs_in, opens_channel,
  closes_channel, closes_connection, destroys,
}
use chamge.Amqp.Runs.{>>=-done}
use chamge.Rpc.Setup.{rpc_login-done}
use chamge.Backend.{Config, Object}
use chamge.Backend.Asked.{IsAsked, rpc_request-IsAsked}
use chamge.Backend.Asked.OwnConnection.{IsOver, over_connection-done}
use chamge.Backend.Edge.{request_body, request, returned, enroll, delist, delist_call}
use chamge.Backend.Edge.Activation.{request-done}

module _ (g : Glib) (r : Rabbit) (cfg : Config) where
  request-IsAsked :
      (conn : r.Connection) (method uid shouldbe : Text) (s t : Net r) (x : Unit {0})
      → request g r cfg conn method uid shouldbe s ≡ ret (done x, t)
      → IsAsked g r cfg (request_body method uid) shouldbe s.log t.log
  request-IsAsked conn method uid shouldbe s t x h =
      let (a, u, asked, valid, same) = request-done g r cfg conn method uid shouldbe s t x h in
      subst (λ l. IsAsked g r cfg (request_body method uid) shouldbe s.log l) (sym same)
        (rpc_request-IsAsked g r cfg conn (request_body method uid) shouldbe s u a asked valid).1

  returned-ok :
      (m : Run (Outcome (Unit {0}) × Net r)) (t : Net r)
      → returned g r cfg m ≡ ret (ok, t)
      → (x : Unit {0}) × (m ≡ ret (done x, t))
  unfolding returned
  returned-ok (stop f) t h = absurd (ground arith)
  returned-ok (ret (done x, u)) t h = (x, ground arith)
  returned-ok (ret (failed e, u)) t h = absurd (ground arith)

  -- An enrolment that returns CHAMGE_RETURN_OK had a URI that could be read. It opened the socket,
  -- logged in and opened the channel; then it sent the request of the edge to enrol, once, and took
  -- at most 11 messages, of which one that passes the test of the correlation id holds an answer
  -- that is accepted for "enrolled"; and it sent nothing else.
  pub enroll-IsAsked :
      (uid : Text) (o : Object r) (s t : Net r)
      → enroll g r cfg (some uid) o s ≡ ret (ok, t)
      → (info : ConnectionInfo) × (r.parse_url cfg.amqp_uri ≡ some info)
        × IsAsked g r cfg
            (request_body (codes "enroll") uid)
            (codes "enrolled")
            (opens_channel ∷ logs_in ∷ opens ∷ s.log)
            t.log
  unfolding enroll
  enroll-IsAsked uid o s t h =
      let (x, ran) = returned-ok _ t h in
      let (y, u, login, rest) = >>=-done _ _ s t x ran in
      let (info, nonzero, parsed, sent) =
        rpc_login-done g r o.amqp_conn cfg.amqp_uri cfg.amqp_channel s u y login in
      (
        info,
        parsed,
        subst (λ l. IsAsked g r cfg (request_body (codes "enroll") uid) (codes "enrolled") l t.log)
            sent (request-IsAsked o.amqp_conn (codes "enroll") uid (codes "enrolled") u t x rest),
      )

  -- The connection of a delisting: a new one, on which it is opened, asked and closed, and which
  -- takes it from the state `s'` after the connection was made to `t`.
  abbrev pub IsOwn : Text → ConnectionInfo → Net r → Net r → Type 0
  IsOwn uid info s t =
      (conn : r.Connection) × (s' : Net r) × (r.new_connection s.world ≡ (some conn, s'.world))
      × (s'.log ≡ s.log)
      × IsOver g r cfg (λ conn. request g r cfg conn (codes "delist") uid (codes "delisted")) info
          conn s' t

  -- A delisting that returns CHAMGE_RETURN_OK had a URI that could be read. On a connection of its
  -- own it logged in, sent the request to delist, once, and took at most 11 messages, of which one
  -- that passes the test of the correlation id holds an answer that is accepted for "delisted";
  -- then it closed the channel and the connection and destroyed it; and it sent nothing else.
  pub delist-IsAsked :
      (uid : Text) (o : Object r) (s t : Net r)
      → delist g r cfg (some uid) o s ≡ ret (ok, t)
      → (info : ConnectionInfo) × (r.parse_url cfg.amqp_uri ≡ some info)
        × IsOwn uid info s t
        × (l : List Event) × IsAsked g r cfg
            (request_body (codes "delist") uid)
            (codes "delisted")
            (opens_channel ∷ logs_in ∷ opens ∷ s.log)
            l
        × (t.log ≡ destroys ∷ closes_connection ∷ closes_channel ∷ l)
  unfolding delist delist_call
  delist-IsAsked uid o s t h =
      let (x, ran) = returned-ok _ t h in
      let (info, conn, s', parsed, new, quiet, over) =
        over_connection-done g r cfg
          (λ conn. request g r cfg conn (codes "delist") uid (codes "delisted")) s t x ran in
      let (u, v, y, ready, asked, closing, opened, closed) = over in
      (
        info,
        parsed,
        (conn, s', new, quiet, over),
        v.log,
        subst (λ l. IsAsked g r cfg (request_body (codes "delist") uid) (codes "delisted") l v.log)
            (opened ∙ ap (λ l. opens_channel ∷ logs_in ∷ opens ∷ l) quiet)
            (request-IsAsked conn (codes "delist") uid (codes "delisted") u v y asked),
        closed,
      )
