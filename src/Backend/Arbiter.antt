-- ===== src/Backend/Arbiter.antt =====
-- chamge/amqp-arbiter-backend.c: the virtual methods of the AMQP backend of the arbiter, and the
-- requests of edges and hubs that it answers. `user_command` is in Backend/Command.antt.
pub mod Requests
pub mod Answers
pub mod Enrolment
pub mod Tests
use chamge.Prelude.{
  ℕ, Bool, true, false, not, Option, none, some, List, ◌∷◌, ◌++◌, Text, codes, text_eq,
  if◌then◌else◌, Run, ret, stop, aborted,
}
use chamge.Prelude
use chamge.Types.{Return, ok}
use chamge.Glib.{Glib}
use chamge.Amqp.{
  Rabbit, Net, M, ask, send, pure, faults, ◌>>=◌, ◌>>◌, to_return, opens, logs_in, opens_channel,
  declares, binds, listens, receives,
}
use chamge.Rpc.{is_normal, is_timeout, string_member}
use chamge.Backend.{Config, Object, remove_source, handle_message}

-- What `klass->edge_enrolled` and its siblings run, on the data `S` of the handlers.
pub record Handlers (S : Type 0) : Type 0 where
  pub edge_enrolled : Text → S → S
  pub edge_delisted : Text → S → S
  pub hub_enrolled : Text → S → S
  pub hub_delisted : Text → S → S

unfoldable pub result_text : Text → Text
result_text t = codes "{\"result\":\"" ++ (t ++ codes "\"}")

module _ {S : Type 0} (h : Handlers S) where
  -- The two arms on the type of the device; only enrolling and delisting do something.
  pub edge_request : Text → Text → S → Text × S
  unfolding result_text
  edge_request method uid x =
      if text_eq method (codes "enroll")
      then (result_text (codes "enrolled"), h.edge_enrolled uid x)
      else if text_eq method (codes "activate")
      then (result_text (codes "activated"), x)
      else if text_eq method (codes "deactivate")
      then (result_text (codes "deactivated"), x)
      else if text_eq method (codes "delist")
      then (result_text (codes "delisted"), h.edge_delisted uid x)
      else (result_text (codes "method(" ++ (method ++ codes ") is not supported")), x)

  pub hub_request : Text → Text → S → Text × S
  unfolding result_text
  hub_request method uid x =
      if text_eq method (codes "enroll")
      then (result_text (codes "enrolled"), h.hub_enrolled uid x)
      else if text_eq method (codes "activate")
      then (result_text (codes "activated"), x)
      else if text_eq method (codes "deactivate")
      then (result_text (codes "deactivated"), x)
      else if text_eq method (codes "delist")
      then (result_text (codes "delisted"), h.hub_delisted uid x)
      else (result_text (codes "method(" ++ (method ++ codes ") is not supported")), x)

  device_request : (g : Glib) → g.Document → Text → Text → S → Text × S
  device_request g doc device_type method x =
      if text_eq device_type (codes "edge")
      then (elim (string_member g doc (codes "edgeId")) [
        | none ↦ (result_text (codes "edgeId does not exist"), x)
        | some uid ↦ edge_request method uid x
      ])
      else if text_eq device_type (codes "hub")
      then (elim (string_member g doc (codes "hubId")) [
        | none ↦ (result_text (codes "hubId does not exist"), x)
        | some uid ↦ hub_request method uid x
      ])
      else (result_text (codes "unknown device type (" ++ (device_type ++ codes ")")), x)

  -- _process_json_message: the response, and the handlers' data afterwards.
  pub process_json_message : Glib → List ℕ → S → Text × S
  unfolding device_request
  process_json_message g body x = elim (g.load body) [
    | none ↦ (result_text (codes "failed to parse body"), x)
    | some doc ↦ elim (string_member g doc (codes "deviceType")) [
      | none ↦ (result_text (codes "device type is missing"), x)
      | some device_type ↦ elim (string_member g doc (codes "method")) [
        | none ↦ (result_text (codes "method is missing"), x)
        | some method ↦ device_request g doc device_type method x
      ]
    ]
  ]

module _ (g : Glib) (r : Rabbit) where
  abort_unless : Bool → M r (Unit {0})
  abort_unless true = pure tt
  abort_unless false = faults aborted

  -- Every failure is reported by `g_error`, which ends the process.
  enroll_call : Config → r.Connection → M r (Unit {0})
  unfolding abort_unless
  enroll_call cfg conn = elim (r.parse_url cfg.amqp_uri) [
    | none ↦ faults aborted
    | some info ↦ do
      opened ← send r opens (r.socket_open conn info.host info.port)
      abort_unless opened
      reply ← send r logs_in (r.login conn info)
      abort_unless (is_normal reply)
      channel_opened ← send r opens_channel (r.channel_open conn cfg.amqp_channel)
      abort_unless channel_opened
      opened_reply ← ask r (r.get_rpc_reply conn)
      declared ←
          send r (declares false cfg.enroll_queue_name)
            (r.queue_declare conn cfg.amqp_channel cfg.enroll_queue_name false)
      elim declared [
        | none ↦ faults aborted
        | some queue ↦ do
          declared_reply ← ask r (r.get_rpc_reply conn)
          bound ← send r (binds cfg.enroll_exchange_name queue cfg.enroll_queue_name) (
              r.queue_bind conn cfg.amqp_channel queue cfg.enroll_exchange_name
                cfg.enroll_queue_name)
          abort_unless bound
          listening ← send r (listens queue) (r.basic_consume conn cfg.amqp_channel queue)
          abort_unless listening
          listening_reply ← ask r (r.get_rpc_reply conn)
          pure tt
      ]
  ]

  unfoldable pub enroll : Config → Object r → Net r → Run (Return × Net r)
  unfolding enroll_call
  enroll cfg o s = Prelude.◌>>=◌ (enroll_call cfg o.amqp_conn s) λ p. ret (to_return p.0, p.1)

module _ (r : Rabbit) where
  unfoldable pub delist : Object r → Net r → Return × Net r
  delist o s = (ok, s)

  unfoldable pub activate : Object r → Net r → Return × Object r × Net r
  activate o s =
      let (id, w) = r.source_add s.world in
      (ok, record o { process_id = id; activated = true }, record s { world = w })

  unfoldable pub deactivate : Object r → Net r → Return × Object r × Net r
  unfolding remove_source
  deactivate o s = let (o', s') = remove_source r (record o { activated = false }) s in (ok, o', s')

module _ (g : Glib) (r : Rabbit) {S : Type 0} (h : Handlers S) where
  -- The handlers do not touch the connection.
  answer_json : List ℕ → S × Net r → Run (Text × S × Net r)
  answer_json body (x, s) =
      let (response, x') = process_json_message h g body x in ret (response, x', s)

  -- The idle callback: it takes a message, for up to a second, and answers it.
  pub process_amqp_message : Object r → S × Net r → Run (Bool × S × Net r)
  unfolding answer_json
  process_amqp_message o (x, s) =
      if not o.activated
      then ret (false, x, s)
      else let ((reply, envelope), w) = r.consume_message o.amqp_conn s.world in
        let s' : Net r = record { world = w; log = receives ∷ s.log } in
        if is_timeout reply
        then ret (true, x, s')
        else Prelude.◌>>=◌ (handle_message g r answer_json o.amqp_conn reply envelope (x, s'))
            λ p. ret (true, p.0, p.1)
