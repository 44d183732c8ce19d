-- ===== src/Backend.antt =====
-- What the AMQP backends of edge, hub and arbiter share: the private data, the settings, how a
-- message is taken and answered. The parts that are the same text in chamge/amqp-edge-backend.c,
-- chamge/amqp-hub-backend.c and chamge/amqp-arbiter-backend.c are written once.
pub mod Tests
pub mod Edge
pub mod Arbiter
pub mod Command
pub mod Hub
pub mod Asked
pub mod Messages
pub mod Silence
pub mod UserCommand
use chamge.Prelude.{
  ℕ, ◌+◌, Bool, true, false, not, ◌&&◌, ◌||◌, Option, none, some, List, [], ◌∷◌, ◌++◌, String, Text,
  codes, cstr, strlen_reaches, length, ◌==◌, if◌then◌else◌, Run, ret, stop, aborted,
}
use chamge.Prelude
use chamge.Types.{Return, ok, fail, Error}
use chamge.Glib.{Glib}
use chamge.Amqp.{
  Rabbit, Net, Outcome, done, failed, M, ask, send, pure, fails, faults, guard, require, ◌>>=◌,
  ◌>>◌, to_return, Properties, Envelope, RpcReply, publishes, destroys,
}
use chamge.Rpc.{is_normal, is_queue_existed}

-- The keys of the GSettings that the backends read; `amqp-channel` as the `guint` that is passed.
pub record Config : Type 0 where
  pub amqp_uri : Text
  pub amqp_channel : ℕ
  pub enroll_queue_name : Text
  pub enroll_exchange_name : Text

module _ (r : Rabbit) where
  -- struct _ChamgeAmqpEdgeBackend and its two siblings.
  pub record Object : Type 0 where
    pub amqp_conn : r.Connection
    pub activated : Bool
    pub process_id : ℕ

  -- The instance function: amqp_new_connection and amqp_tcp_socket_new, which must give a socket.
  unfoldable pub object_init : Net r → Run (Object × Net r)
  object_init s =
      let (conn, w) = r.new_connection s.world in
      elim conn [
        | none ↦ stop aborted
        | some c ↦
            ret
              (record { amqp_conn = c; activated = false; process_id = 0 }, record s { world = w })
      ]

  -- `if (self->process_id != 0) { g_source_remove; self->process_id = 0; }`.
  unfoldable pub remove_source : Object → Net r → Object × Net r
  remove_source o s =
      if o.process_id == 0
      then (o, s)
      else (record o { process_id = 0 }, record s { world = r.source_remove o.process_id s.world })

  unfoldable pub dispose : Object → Net r → Net r
  unfolding remove_source
  dispose o s =
      let (o', s') = remove_source o s in
      record s' { world = (r.destroy_connection o'.amqp_conn s'.world).1; log = destroys ∷ s'.log }

  abbrev pub default_content_type : Text
  default_content_type = codes "application/json"

-- A body of another type is dropped.
unfoldable pub valid_content_type : Glib → Option Text → Bool
valid_content_type g none = false
valid_content_type g (some t) =
    (16 == length t) && g.same_ascii (codes "application/json") t (length t)

-- A property of a message as a C string, if it is set, not empty and has no 0 byte.
pub property_text : Option Text → Option Text
property_text none = none
property_text (some t) = if not (length t == 0) && strlen_reaches t then some (cstr t) else none

-- What the checks of `_process_amqp_message` leave: the body, the queue for the reply and the
-- correlation id; `none` is `goto out`.
pub record Request : Type 0 where
  pub body : List ℕ
  pub reply_queue : Text
  pub correlation_id : Option Text

unfoldable pub checked : Glib → RpcReply → Envelope → Option Request
unfolding valid_content_type property_text
checked g reply envelope = if not (is_normal reply) then none else elim envelope.body [
  | none ↦ none
  | some body ↦
      if not (valid_content_type g envelope.properties.content_type)
      then none
      else elim (property_text envelope.properties.reply_to) [
        | none ↦ none
        | some queue ↦ some (record {
          body = body;
          reply_queue = queue;
          correlation_id = property_text envelope.properties.correlation_id;
        })
      ]
]

unfoldable pub response_properties : Option Text → Properties
response_properties cid = record {
  content_type = some (codes "application/json");
  delivery_mode = 2;
  reply_to = none;
  correlation_id = cid;
}

module _ (g : Glib) (r : Rabbit) where
  -- The response is published if the queue for it exists; whether that worked is not looked at.
  pub respond : r.Connection → ℕ → Request → Text → M r (Unit {0})
  respond conn channel request response = do
    is_queue_existed g r conn channel (some request.reply_queue)
    status ←
        send r
          (publishes [] request.reply_queue (response_properties request.correlation_id) response)
          (r.basic_publish conn channel [] request.reply_queue
            (response_properties request.correlation_id) response)
    pure tt

  module _ {S : Type 0} (process_json_message : List ℕ → S × Net r → Run (Text × S × Net r)) where
    -- The part of `_process_amqp_message` after the message was taken; all its ends are
    -- G_SOURCE_CONTINUE. `S` is what the handlers of the message act on.
    unfoldable pub handle_message : r.Connection → RpcReply → Envelope → S × Net r → Run (S × Net r)
    handle_message conn reply envelope (x, s) = elim (checked g reply envelope) [
      | none ↦ ret (x, s)
      | some request ↦
          Prelude.◌>>=◌ (process_json_message request.body (x, s)) λ (response, x', s').
            Prelude.◌>>=◌ (respond conn envelope.channel request response s') λ p. ret (x', p.1)
    ]
