-- ===== src/Backend/Hub.antt =====
-- chamge/amqp-hub-backend.c: the virtual methods of the AMQP backend of a hub. The uid is what
-- chamge_hub_get_uid and chamge_node_get_uid give for the hub of the backend; without a hub or a
-- uid the methods end alike. Unlike the edge, a hub reads a response that is NULL.
pub mod Activation
pub mod Enrolment
pub mod Closure
pub mod RoundTrip
pub mod Tests
use chamge.Prelude.{
  ℕ, Bool, true, false, not, Option, none, some, List, ◌∷◌, ◌++◌, Text, codes, cstr, if◌then◌else◌,
  Run, ret, stop, aborted, null_read,
}
use chamge.Prelude
use chamge.Types.{Return, ok, fail}
use chamge.Glib.{Glib}
use chamge.Amqp.{
  Rabbit, Net, Outcome, done, failed, M, ask, send, pure, fails, faults, guard, require, ◌>>=◌,
  ◌>>◌, to_return, opens, logs_in, opens_channel, closes_channel, closes_connection, destroys,
  receives,
}
use chamge.Rpc.{
  is_normal, is_timeout, rpc_login, rpc_request, rpc_subscribe, validate_response, guard_reply,
}
use chamge.Backend.{Config, Object, remove_source, handle_message}
use chamge.Backend.Command.{over_own_connection, get_queue_name}
use chamge.Node.{Reply}

-- The requests are printed with `%s`: the uid is not escaped.
unfoldable pub request_body : Text → Text → Text
request_body method uid =
    codes "{\"method\":\""
    ++ (method ++ (codes "\",\"deviceType\":\"hub\",\"hubId\":\"" ++ (uid ++ codes "\"}")))

module _ (g : Glib) (r : Rabbit) (cfg : Config) where
  -- _validate_response of the hub: `strlen` reads the response, also one that is NULL.
  unfoldable pub validate_hub_response : Option Text → Text → Run Return
  validate_hub_response none shouldbe = stop null_read
  validate_hub_response (some response) shouldbe =
      ret (validate_response g (some response) shouldbe)

  unfoldable pub check_response : Option Text → Text → M r (Unit {0})
  unfolding validate_hub_response
  check_response response shouldbe s =
      Prelude.◌>>=◌ (validate_hub_response response shouldbe)
        λ x. ret (elim x [ ok ↦ done tt | _ ↦ failed none ], s)

  -- Sends a request to the queue of the arbiter, and holds the answer against `shouldbe`.
  unfoldable pub request : r.Connection → Text → Text → Text → M r (Unit {0})
  unfolding check_response
  request conn method uid shouldbe = do
    answer ←
        rpc_request g r conn cfg.amqp_channel (request_body method uid)
          (some cfg.enroll_exchange_name) (some cfg.enroll_queue_name)
    check_response answer.body shouldbe

  -- Ends the call in CHAMGE_RETURN_OK or CHAMGE_RETURN_FAIL.
  unfoldable pub returned : Run (Outcome (Unit {0}) × Net r) → Run (Return × Net r)
  returned m = Prelude.◌>>=◌ m λ p. ret (to_return p.0, p.1)

  unfoldable pub enroll : Option Text → Object r → Net r → Run (Return × Net r)
  unfolding returned
  enroll none o s = ret (fail, s)
  enroll (some uid) o s = returned (
      (do
        rpc_login g r o.amqp_conn cfg.amqp_uri cfg.amqp_channel
        request o.amqp_conn (codes "enroll") uid (codes "enrolled"))
        s)

  -- The delisting has a connection of its own, which is closed only if all went well.
  unfoldable pub delist_call : Text → M r (Unit {0})
  delist_call uid = do
    info ← require (r.parse_url cfg.amqp_uri) none
    created ← ask r r.new_connection
    elim created [
      | none ↦ faults aborted
      | some conn ↦ do
        opened ← send r opens (r.socket_open conn info.host info.port)
        guard opened none
        reply ← send r logs_in (r.login conn info)
        guard (is_normal reply) none
        channel_opened ← send r opens_channel (r.channel_open conn cfg.amqp_channel)
        guard_reply g r conn channel_opened "channel open failure >> "
        request conn (codes "delist") uid (codes "delisted")
        closed ← send r closes_channel (r.channel_close conn cfg.amqp_channel)
        guard (is_normal closed) none
        ended ← send r closes_connection (r.connection_close conn)
        guard (is_normal ended) none
        status ← send r destroys (r.destroy_connection conn)
        elim status [ none ↦ pure tt | some e ↦ fails none ]
    ]

  -- `g_error` ends the process if there is no uid.
  unfoldable pub delist : Option Text → Object r → Net r → Run (Return × Net r)
  unfolding delist_call returned
  delist none o s = stop aborted
  delist (some uid) o s = returned (delist_call uid s)

  -- After the answer "activated" the flag is set, whether the subscription works or not.
  subscribed : Object r → Run (Outcome (Unit {0}) × Net r) → Run (Return × Object r × Net r)
  subscribed o (stop e) = stop e
  subscribed o (ret (failed e, s)) = ret (fail, o, s)
  subscribed o (ret (done x, s)) =
      let (id, w) = r.source_add s.world in
      ret (ok, record o { process_id = id }, record s { world = w })

  accepted : Text → Object r → Run (Outcome (Unit {0}) × Net r) → Run (Return × Object r × Net r)
  unfolding subscribed
  accepted uid o (stop e) = stop e
  accepted uid o (ret (failed e, s)) = ret (fail, o, s)
  accepted uid o (ret (done x, s)) =
      subscribed (record o { activated = true })
        (rpc_subscribe g r o.amqp_conn cfg.amqp_channel cfg.enroll_exchange_name uid s)

  unfoldable pub activate : Option Text → Object r → Net r → Run (Return × Object r × Net r)
  unfolding accepted
  activate none o s = stop aborted
  activate (some uid) o s =
      accepted uid o (request o.amqp_conn (codes "activate") uid (codes "activated") s)

module _ (r : Rabbit) where
  -- The flag stays set.
  unfoldable pub deactivate : Object r → Net r → Return × Object r × Net r
  unfolding remove_source
  deactivate o s = let (o', s') = remove_source r o s in (ok, o', s')

module _ (g : Glib) (r : Rabbit) where
  module _ {S : Type 0} (user_command : Text → S × Net r → Run (Option Text × S × Net r)) where
    unfoldable pub process_json_message : List ℕ → S × Net r → Run (Text × S × Net r)
    process_json_message body (x, s) = elim (g.load body) [
      | none ↦ ret (codes "{\"result\":\"failed to parse body\"}", x, s)
      | some doc ↦ Prelude.◌>>=◌ (user_command (cstr body) (x, s)) λ (response, x', s').
          elim response [
            | some text ↦ ret (text, x', s')
            | none ↦ ret (codes "{\"result\":\"not ok\"}", x', s')
          ]
    ]

    -- The idle callback: it takes a message, for up to a second, and answers it.
    unfoldable pub process_amqp_message : Object r → S × Net r → Run (Bool × S × Net r)
    process_amqp_message o (x, s) =
        if not o.activated
        then ret (false, x, s)
        else let ((reply, envelope), w) = r.consume_message o.amqp_conn s.world in
          let s' : Net r = record { world = w; log = receives ∷ s.log } in
          if is_timeout reply
          then ret (true, x, s')
          else Prelude.◌>>=◌
              (handle_message g r process_json_message o.amqp_conn reply envelope (x, s'))
              λ p. ret (true, p.0, p.1)

  -- chamge_amqp_hub_backend_user_command: the same wait of at most 11 messages as for an enrolment.
  pub user_command_send : Config → Text → Net r → Run (Reply × Net r)
  user_command_send cfg cmd s =
      over_own_connection g r cfg
        (λ conn.
          rpc_request g r conn cfg.amqp_channel cmd (some cfg.enroll_exchange_name)
            (get_queue_name g r cmd))
        s
