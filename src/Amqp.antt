-- ===== src/Amqp.antt =====
-- rabbitmq-c, as the program calls it. The library and the broker behind it are a parameter: each
-- call takes the world and gives a reply and the next world. The model keeps a log of the calls
-- that go to the broker, the newest first, so that theorems can speak of them.
pub mod Runs
use chamge.Prelude.{
  ℕ, Bool, true, false, Option, none, some, List, ◌∷◌, Text, Run, ret, stop, Fault,
}
use chamge.Types.{Error, Return, ok, fail}

-- struct amqp_connection_info.
pub record ConnectionInfo : Type 0 where
  pub host : Text
  pub port : ℕ
  pub vhost : Text
  pub user : Text
  pub password : Text

-- amqp_rpc_reply_t: AMQP_RESPONSE_NORMAL, _NONE, _LIBRARY_EXCEPTION and _SERVER_EXCEPTION.
pub data ServerError : Type 0 where
  connection_close channel_close : ℕ → Text → ServerError
  other_method : ℕ → ServerError

pub data LibraryError : Type 0 where
  timeout : LibraryError
  other_error : ℕ → LibraryError

pub data RpcReply : Type 0 where
  normal missing : RpcReply
  library_exception : LibraryError → RpcReply
  server_exception : ServerError → RpcReply

-- The properties of a message; `none` where the flag of the property is not set.
pub record Properties : Type 0 where
  pub content_type : Option Text
  pub delivery_mode : ℕ
  pub reply_to : Option Text
  pub correlation_id : Option Text

-- amqp_envelope_t; `body` is `none` where its bytes are NULL.
pub record Envelope : Type 0 where
  pub channel : ℕ
  pub properties : Properties
  pub body : Option (List ℕ)

-- The calls that reach the broker. `binds` has the exchange, the queue and the routing key.
pub data Event : Type 0 where
  opens logs_in opens_channel closes_channel closes_connection destroys receives : Event
  declares : Bool → Text → Event
  binds : Text → Text → Text → Event
  listens : Text → Event
  publishes : Text → Text → Properties → Text → Event

-- `Bool` is success. An empty name asks the broker to choose one; `passive` only asks whether the
-- queue exists. A negative status of amqp_basic_publish and the like is `some`.
pub record Rabbit : Type 1 where
  pub World : Type 0
  pub Connection : Type 0
  pub parse_url : Text → Option ConnectionInfo
  pub new_connection : World → Option Connection × World
  pub socket_open : Connection → Text → ℕ → World → Bool × World
  pub login : Connection → ConnectionInfo → World → RpcReply × World
  pub channel_open : Connection → ℕ → World → Bool × World
  pub get_rpc_reply : Connection → World → RpcReply × World
  pub queue_declare : Connection → ℕ → Text → Bool → World → Option Text × World
  pub queue_bind : Connection → ℕ → Text → Text → Text → World → Bool × World
  pub basic_consume : Connection → ℕ → Text → World → Bool × World
  pub basic_publish :
      Connection → ℕ → Text → Text → Properties → Text → World → Option LibraryError × World
  pub frames_enqueued : Connection → World → Bool
  pub consume_message : Connection → World → (RpcReply × Envelope) × World
  pub channel_close : Connection → ℕ → World → RpcReply × World
  pub connection_close : Connection → World → RpcReply × World
  pub destroy_connection : Connection → World → Option LibraryError × World
  pub error_string2 : LibraryError → Text
  -- g_uuid_string_random, and the ids of g_idle_add and g_source_attach.
  pub uuid_string_random : World → Text × World
  pub source_add : World → ℕ × World
  pub source_remove : ℕ → World → World

pub record Net (r : Rabbit) : Type 0 where
  pub world : r.World
  pub log : List Event

-- How a function ends that returns a ChamgeReturn and sets a GError: CHAMGE_RETURN_OK with a
-- value, or CHAMGE_RETURN_FAIL with the error if it set one.
pub data Outcome (A : Type 0) : Type 0 where
  done : A → Outcome A
  failed : Option Error → Outcome A

module _ (r : Rabbit) where
  abbrev pub M : Type 0 → Type 0
  M A = Net r → Run (Outcome A × Net r)

  -- A call that is not logged, and one that is.
  unfoldable pub ask : {A : Type 0} → (r.World → A × r.World) → M A
  ask f s = let (a, w) = f s.world in ret (done a, record s { world = w })

  unfoldable pub send : {A : Type 0} → Event → (r.World → A × r.World) → M A
  send e f s = let (a, w) = f s.world in ret (done a, record s { world = w; log = e ∷ s.log })

module _ {r : Rabbit} where
  unfoldable pub pure : {A : Type 0} → A → M r A
  pure a s = ret (done a, s)

  unfoldable pub fails : {A : Type 0} → Option Error → M r A
  fails e s = ret (failed e, s)

  unfoldable pub faults : {A : Type 0} → Fault → M r A
  faults f s = stop f

  abbrev pub continue :
      {A B : Type 0} → (A → M r B) → Run (Outcome A × Net r) → Run (Outcome B × Net r)
  continue f (stop x) = stop x
  continue f (ret (failed e, s)) = ret (failed e, s)
  continue f (ret (done a, s)) = f a s

  -- `if (!b) goto out;` after setting `error`.
  unfoldable pub guard : Bool → Option Error → M r (Unit {0})
  guard true e s = ret (done tt, s)
  guard false e s = ret (failed e, s)

  unfoldable pub require : {A : Type 0} → Option A → Option Error → M r A
  require (some a) e s = ret (done a, s)
  require none e s = ret (failed e, s)

  infixl 5 ◌>>=◌ ◌>>◌
  -- To unfold this is to unfold all the steps above.
  unfoldable pub ◌>>=◌ : {A B : Type 0} → M r A → (A → M r B) → M r B
  unfolding ask send pure fails faults guard require
  ◌>>=◌ m f s = continue f (m s)

  abbrev pub ◌>>◌ : {B : Type 0} → M r (Unit {0}) → M r B → M r B
  m >> k = m >>= λ _. k

-- What the caller sees of it.
abbrev pub to_return : {A : Type 0} → Outcome A → Return
to_return (done a) = ok
to_return (failed e) = fail
