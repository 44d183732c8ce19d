-- ===== src/Rpc.antt =====
-- The remote calls of chamge/amqp-edge-backend.c; chamge/amqp-hub-backend.c has the same text of
-- every function here but `_validate_response`. `channel` is a `guint`.
pub mod Tests
pub mod Await
pub mod Trace
pub mod Setup
pub mod Responses
use chamge.Prelude.{
  ℕ, zero, suc, ◌+◌, Bool, true, false, not, Option, none, some, List, [], ◌∷◌, ◌++◌, String, Text,
  codes, take, cstr, strncmp_eq, text_eq, ltb, ◌==◌, if◌then◌else◌, Run, ret, stop, unfinished,
}
use chamge.Types.{Error, ErrorCode, invalid_parameter, operation_failure, Return, ok, fail}
use chamge.Glib.{Glib}
use chamge.Amqp.{
  Rabbit, Net, M, ask, send, pure, fails, faults, guard, require, ◌>>=◌, ◌>>◌, ConnectionInfo,
  ServerError, connection_close, channel_close, other_method, LibraryError, timeout, RpcReply,
  normal, missing, library_exception, server_exception, Properties, Envelope, opens, logs_in,
  opens_channel, declares, binds, listens, publishes, receives,
}

abbrev pub error_of : ErrorCode → Text → Option Error
error_of c m = some (record { code = c; message = m })

abbrev pub is_normal : RpcReply → Bool
is_normal normal = true
is_normal _ = false

abbrev pub is_timeout : RpcReply → Bool
is_timeout (library_exception timeout) = true
is_timeout _ = false

-- _amqp_server_exception_string: the static buffer holds 512 bytes with the final 0.
pub server_exception_string : Glib → ServerError → Text
server_exception_string g (connection_close reply_code text) = take 511 (
    codes "server connection error "
    ++ (g.decimal reply_code ++ (codes ", message: " ++ cstr text)))
server_exception_string g (channel_close reply_code text) =
    take 511 (
      codes "server channel error " ++ (g.decimal reply_code ++ (codes ", message: " ++ cstr text)))
server_exception_string g (other_method id) =
    take 511 (codes "unknown server error, method id 0x" ++ g.hex8 id)

-- `s == NULL ? amqp_cstring_bytes ("") : amqp_cstring_bytes (s)`.
abbrev pub or_empty : Option Text → Text
or_empty none = []
or_empty (some t) = t

-- What the wait for an answer leaves in `*response_body` and `*error`.
pub record Answer : Type 0 where
  pub body : Option Text
  pub error : Option Error

-- An envelope answers the request if its correlation id passes the test of `strncmp`.
unfoldable pub answers : Text → Envelope → Bool
answers correlation_id envelope = elim envelope.properties.correlation_id [
  | none ↦ false
  | some id ↦ strncmp_eq correlation_id id
]

unfoldable pub response_of : Envelope → Option Text
response_of envelope = elim envelope.body [ none ↦ none | some bytes ↦ some (cstr bytes) ]

pub no_response : Answer
no_response = record {
  body = none;
  error = error_of operation_failure (codes "no response to the request in 10 messages");
}

unfoldable pub request_properties : Text → Text → Properties
request_properties reply_queue correlation_id = record {
  content_type = some (codes "application/json");
  delivery_mode = 2;
  reply_to = some reply_queue;
  correlation_id = some correlation_id;
}

module _ (g : Glib) (r : Rabbit) where
  pub rpc_reply_string : RpcReply → Text
  rpc_reply_string normal = codes "normal response"
  rpc_reply_string missing = codes "missing RPC reply type"
  rpc_reply_string (library_exception e) = r.error_string2 e
  rpc_reply_string (server_exception e) = server_exception_string g e

  -- Fails with the text and the reply to the last call.
  unfoldable pub fail_with_reply : {A : Type 0} → r.Connection → String → M r A
  fail_with_reply conn text = do
    reply ← ask r (r.get_rpc_reply conn)
    fails (error_of operation_failure (codes text ++ rpc_reply_string reply))

  unfoldable pub guard_reply : r.Connection → Bool → String → M r (Unit {0})
  guard_reply conn true text = pure tt
  guard_reply conn false text = fail_with_reply conn text

  unfoldable pub require_reply : {A : Type 0} → r.Connection → Option A → String → M r A
  require_reply conn (some a) text = pure a
  require_reply conn none text = fail_with_reply conn text

  unfoldable pub rpc_login : r.Connection → Text → ℕ → M r (Unit {0})
  rpc_login conn url channel = do
    guard (not (channel == 0)) none
    info ← require (r.parse_url url) (error_of invalid_parameter (codes "url pasring failure"))
    opened ← send r opens (r.socket_open conn info.host info.port)
    guard opened (error_of operation_failure (codes "socket open failure"))
    reply ← send r logs_in (r.login conn info)
    guard (is_normal reply)
        (error_of operation_failure (codes "login failure >> " ++ rpc_reply_string reply))
    channel_opened ← send r opens_channel (r.channel_open conn channel)
    guard_reply conn channel_opened "channel open failure >> "

  -- With no name the broker chooses one; the name of the queue is returned.
  unfoldable pub declare_queue : r.Connection → ℕ → Option Text → M r Text
  declare_queue conn channel queue_name = do
    let name = or_empty queue_name
    declared ← send r (declares false name) (r.queue_declare conn channel name false)
    require_reply conn declared "declare queue failure >> "

  -- A passive declaration: it fails if there is no such queue.
  unfoldable pub is_queue_existed : r.Connection → ℕ → Option Text → M r (Unit {0})
  is_queue_existed conn channel none =
      fails (error_of operation_failure (codes "queue name is null"))
  is_queue_existed conn channel (some name) = do
    declared ← send r (declares true name) (r.queue_declare conn channel name true)
    found ← require_reply conn declared "passive queue declare failure >> "
    pure tt

  -- One message or failure of `amqp_consume_message`: `none` is `continue`.
  unfoldable pub received : Text → RpcReply → Envelope → Option Answer
  received correlation_id reply envelope =
      if is_timeout reply
      then some
          (record { body = none; error = error_of operation_failure (codes "consume msg timeout") })
      else if not (is_normal reply)
      then some (record {
        body = none;
        error =
            error_of operation_failure (codes "consume msg failure >> " ++ rpc_reply_string reply);
      })
      else if answers correlation_id envelope
      then some (record { body = response_of envelope; error = none })
      else none

  -- The loop `do { … } while (1)` of _amqp_rpc_request, where `*response_body` is NULL before.
  -- The first argument is the fuel.
  unfoldable pub await : ℕ → ℕ → r.Connection → Text → M r Answer
  await zero retry_count conn correlation_id = faults unfinished
  await (suc fuel) retry_count conn correlation_id =
      let again = await fuel (retry_count + 1) conn correlation_id in
      if ltb 10 retry_count then pure no_response else do
        (reply, envelope) ← send r receives (r.consume_message conn)
        elim (received correlation_id reply envelope) [ some a ↦ pure a | none ↦ again ]

  unfoldable pub publish : r.Connection → ℕ → Text → Text → Properties → Text → M r (Unit {0})
  publish conn channel exchange queue props body = do
    status ←
        send r (publishes exchange queue props body)
          (r.basic_publish conn channel exchange queue props body)
    elim status [
      | none ↦ pure tt
      | some e ↦
          fails (error_of operation_failure (codes "publish failure >> " ++ r.error_string2 e))
    ]

  unfoldable pub listen : r.Connection → ℕ → Text → M r (Unit {0})
  listen conn channel queue = do
    listening ← send r (listens queue) (r.basic_consume conn channel queue)
    guard_reply conn listening "basic consume failure >> "

  -- CHAMGE_RETURN_OK with what the wait left, however the wait ended.
  unfoldable pub rpc_request : r.Connection → ℕ → Text → Option Text → Option Text → M r Answer
  rpc_request conn channel request exchange queue_name = do
    guard (not (channel == 0)) none
    queue ← require queue_name none
    is_queue_existed conn channel (some queue)
    reply_queue ← declare_queue conn channel none
    uuid ← ask r r.uuid_string_random
    let correlation_id = g.sha256_hex uuid
    publish conn channel (or_empty exchange) queue (request_properties reply_queue correlation_id)
        request
    listen conn channel reply_queue
    await 12 0 conn correlation_id

  unfoldable pub rpc_subscribe : r.Connection → ℕ → Text → Text → M r (Unit {0})
  rpc_subscribe conn channel exchange_name queue_name = do
    guard (not (channel == 0)) none
    listen_queue ← declare_queue conn channel (some queue_name)
    guard (text_eq queue_name listen_queue) (
        error_of operation_failure (
          codes "declare required queue name ("
          ++ (queue_name ++ (codes ") != declared queue name (" ++ (listen_queue ++ codes ")")))))
    bound ←
        send r (binds exchange_name queue_name queue_name)
          (r.queue_bind conn channel queue_name exchange_name queue_name)
    guard_reply conn bound "queue bind failure >> "
    listen conn channel queue_name

-- `g_strcmp0 (s, t) == 0` for a string that may be NULL and a literal.
unfoldable pub same_string : Option Text → Text → Bool
same_string none t = false
same_string (some s) t = text_eq s t

-- A member that is not there, and one that is no string, are both no text.
unfoldable pub string_member : (g : Glib) → g.Document → Text → Option Text
string_member g doc name = elim (g.member doc name) [ none ↦ none | some s ↦ s ]

-- _validate_response of the edge, which a NULL response fails.
unfoldable pub validate_response : Glib → Option Text → Text → Return
unfolding same_string string_member
validate_response g none shouldbe = fail
validate_response g (some response) shouldbe = elim (g.load response) [
  | none ↦ fail
  | some doc ↦ if same_string (string_member g doc (codes "result")) shouldbe then ok else fail
]
