-- ===== src/Backend/Command.antt =====
-- `user_command` of chamge/amqp-arbiter-backend.c: a command is sent to the queue that it names,
-- over a connection of its own, and the answer is awaited with no bound on the messages.
pub mod Wait
pub mod Closing
pub mod Trace
pub mod Reported
pub mod Tests
use chamge.Prelude.{
  ℕ, zero, suc, Bool, true, false, not, Option, none, some, List, [], ◌∷◌, ◌++◌, String, Text,
  codes, take, cstr, ◌==◌, if◌then◌else◌, Run, ret, stop, aborted, unfinished,
}
use chamge.Prelude
use chamge.Types.{ok, fail, Error, invalid_parameter, operation_failure, missing_parameter}
use chamge.Node.{Reply}
use chamge.Glib.{Glib}
use chamge.Amqp.{
  Rabbit, Net, LibraryError, Outcome, done, failed, M, ask, send, pure, fails, faults, guard,
  require, ◌>>=◌, ◌>>◌, Envelope, RpcReply, normal, missing, library_exception, server_exception,
  opens, logs_in, opens_channel, closes_channel, closes_connection, destroys, declares, listens,
  publishes, receives,
}
use chamge.Rpc.{
  error_of, is_normal, is_timeout, Answer, answers, response_of, string_member,
  server_exception_string, or_empty, request_properties,
}
use chamge.Backend.{Config}

module _ (g : Glib) (r : Rabbit) where
  -- _amqp_get_rpc_reply_string.
  pub reply_string : RpcReply → Text
  reply_string normal = codes "response normal"
  reply_string missing = codes "reply type is missing"
  reply_string (library_exception e) = r.error_string2 e
  reply_string (server_exception e) = server_exception_string g e

  guard_reply : {A : Type 0} → r.Connection → Option A → String → M r A
  guard_reply conn (some a) text = pure a
  guard_reply conn none text = do
    reply ← ask r (r.get_rpc_reply conn)
    fails (error_of operation_failure (codes text ++ reply_string reply))

  to_option : Bool → Option (Unit {0})
  to_option true = some tt
  to_option false = none

  pub is_queue_existed : r.Connection → ℕ → Option Text → M r (Unit {0})
  is_queue_existed conn channel none =
      fails (error_of operation_failure (codes "queue name is null"))
  is_queue_existed conn channel (some name) = do
    declared ← send r (declares true name) (r.queue_declare conn channel name true)
    found ← guard_reply conn declared "passive queue declare failure >> "
    pure tt

  unfoldable pub received : Text → RpcReply → Envelope → Option Answer
  received correlation_id reply envelope =
      if is_timeout reply
      then some
          (record { body = none; error = error_of operation_failure (codes "consume msg timeout") })
      else if not (is_normal reply)
      then some (record {
        body = none;
        error = error_of operation_failure (codes "consume msg failure >> " ++ reply_string reply);
      })
      else if answers correlation_id envelope
      then some (record { body = response_of envelope; error = none })
      else none

  -- The loop `do { … } while (1)`, on fuel: the source has no bound.
  unfoldable pub await : ℕ → r.Connection → Text → M r Answer
  await zero conn correlation_id = faults unfinished
  await (suc fuel) conn correlation_id =
      let again = await fuel conn correlation_id in
      do
        (reply, envelope) ← send r receives (r.consume_message conn)
        elim (received correlation_id reply envelope) [ some a ↦ pure a | none ↦ again ]

  -- The member "to" of a request.
  pub get_queue_name : Text → Option Text
  get_queue_name request = elim (g.load request) [
    | none ↦ none
    | some doc ↦ string_member g doc (codes "to")
  ]

  -- What follows the publishing, which has the given status.
  pub awaits_answer : ℕ → r.Connection → ℕ → Text → Text → Option LibraryError → M r Answer
  awaits_answer fuel conn channel reply_queue correlation_id (some e) =
      fails (error_of operation_failure (codes "publish failure >> " ++ r.error_string2 e))
  awaits_answer fuel conn channel reply_queue correlation_id none = do
    listening ← send r (listens reply_queue) (r.basic_consume conn channel reply_queue)
    started ← guard_reply conn (to_option listening) "basic consume failure >> "
    await fuel conn correlation_id

  pub handle_rpc_user_command : ℕ → r.Connection → ℕ → Text → Option Text → M r Answer
  handle_rpc_user_command fuel conn channel request exchange = do
    guard (not (channel == 0)) none
    queue ←
        require (get_queue_name request)
          (error_of missing_parameter (codes "json parsing failure to get \"to\""))
    is_queue_existed conn channel (some queue)
    declared ← send r (declares false []) (r.queue_declare conn channel [] false)
    reply_queue ← guard_reply conn declared "declare queue failure >> "
    uuid ← ask r r.uuid_string_random
    let props = request_properties reply_queue (g.sha256_hex uuid)
    status ←
        send r (publishes (or_empty exchange) queue props request)
          (r.basic_publish conn channel (or_empty exchange) queue props request)
    awaits_answer fuel conn channel reply_queue (g.sha256_hex uuid) status

  -- g_set_error does not replace an error that is set.
  set_error : Option Error → Option Error → Option Error
  set_error (some e) new = some e
  set_error none new = new

  pub close_failed : Reply → Text → Reply
  close_failed p text = record p {
    result = fail;
    error = set_error p.error (error_of operation_failure text);
  }

  -- The end of the call: the connection is closed, and a failure of that makes the call fail.
  pub close : r.Connection → ℕ → Reply → M r Reply
  unfolding close_failed set_error
  close conn channel p = do
    closed ← send r closes_channel (r.channel_close conn channel)
    elim (is_normal closed) [
      | false ↦ pure (close_failed p (codes "channel close failure >> " ++ reply_string closed))
      | true ↦ do
        ended ← send r closes_connection (r.connection_close conn)
        elim (is_normal ended) [
          | false ↦
              pure (close_failed p (codes "connection close failure >> " ++ reply_string ended))
          | true ↦ do
            status ← send r destroys (r.destroy_connection conn)
            elim status [
              | none ↦ pure p
              | some e ↦
                  pure
                    (close_failed p (codes "connection destroy failure >> " ++ r.error_string2 e))
            ]
        ]
    ]

  pub connect : Config → M r r.Connection
  connect cfg = do
    info ←
        require (r.parse_url cfg.amqp_uri)
          (error_of invalid_parameter (codes "url pasring failure"))
    created ← ask r r.new_connection
    elim created [
      | none ↦ faults aborted
      | some conn ↦ do
        opened ← send r opens (r.socket_open conn info.host info.port)
        guard opened (error_of operation_failure (codes "socket open failure"))
        reply ← send r logs_in (r.login conn info)
        guard (is_normal reply)
            (error_of operation_failure (codes "login failure >> " ++ reply_string reply))
        channel_opened ← send r opens_channel (r.channel_open conn cfg.amqp_channel)
        ready ← guard_reply conn (to_option channel_opened) "channel open failure >> "
        pure conn
    ]

  failure : Option Error → Reply
  failure e = record { result = fail; out = none; error = e }

  -- What follows the answer: only a failure with an error skips the closing.
  finish : Config → r.Connection → Run (Outcome Answer × Net r) → Run (Outcome Reply × Net r)
  unfolding failure
  finish cfg conn (stop x) = stop x
  finish cfg conn (ret (failed (some e), s)) = ret (done (failure (some e)), s)
  finish cfg conn (ret (failed none, s)) = close conn cfg.amqp_channel (failure none) s
  finish cfg conn (ret (done a, s)) =
      close conn cfg.amqp_channel (record { result = ok; out = a.body; error = a.error }) s

  connected :
      Config
      → (r.Connection → M r Answer)
      → Run (Outcome r.Connection × Net r)
      → Run (Outcome Reply × Net r)
  unfolding finish
  connected cfg rpc (stop x) = stop x
  connected cfg rpc (ret (failed e, s)) = ret (done (failure e), s)
  connected cfg rpc (ret (done conn, s)) = finish cfg conn (rpc conn s)

  outcome_reply : Outcome Reply → Reply
  unfolding failure
  outcome_reply (done p) = p
  outcome_reply (failed e) = failure e

  -- A remote call over a connection of its own; chamge/amqp-hub-backend.c has the same text
  -- around another call.
  pub over_own_connection : Config → (r.Connection → M r Answer) → Net r → Run (Reply × Net r)
  unfolding connect connected outcome_reply
  over_own_connection cfg rpc s =
      Prelude.◌>>=◌ (connected cfg rpc (connect cfg s)) λ p. ret (outcome_reply p.0, p.1)

  pub user_command : ℕ → Config → Text → Net r → Run (Reply × Net r)
  user_command fuel cfg cmd s =
      over_own_connection cfg
        (λ conn.
          handle_rpc_user_command fuel conn cfg.amqp_channel cmd (some cfg.enroll_exchange_name))
        s
