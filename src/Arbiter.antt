-- ===== src/Arbiter.antt =====
-- chamge/arbiter.c, chamge/arbiter-backend.c and chamge/mock-arbiter-backend.c: the arbiter is a
-- node whose methods are those of a backend. What the backend learns from messages it passes on by
-- closures, which emit the signals of the arbiter.
pub mod Serving
pub mod Life
pub mod Tests
use chamge.Prelude.{ℕ, Bool, true, false, Option, none, some, Text, if◌then◌else◌, Run, ret, ◌>>=◌}
use chamge.Types.{Return, ok, fail, BackendKind, amqp}
use chamge.Glib.{Glib}
use chamge.Amqp.{Rabbit, Net}
use chamge.Backend.{Config, Object, object_init, dispose}
use chamge.Backend.Arbiter
use chamge.Backend.Arbiter.{Handlers}
use chamge.Backend.Command
use chamge.Node.{Class, class_init, Reply}

module _ (r : Rabbit) where
  -- The two classes of backends.
  pub data Implementation : Type 0 where
    mock_backend : Implementation
    amqp_backend : Object r → Implementation

  -- ChamgeArbiterBackendPrivate: which closures are set.
  pub record ArbiterBackend : Type 0 where
    pub implementation : Implementation
    pub edge_enrolled : Bool
    pub edge_delisted : Bool
    pub edge_connection_requested : Bool
    pub hub_enrolled : Bool
    pub hub_delisted : Bool

  -- ChamgeArbiterPrivate, and the world.
  pub record ArbiterData : Type 0 where
    pub kind : BackendKind
    pub arbiter_backend : Option ArbiterBackend
    pub net : Net r

  -- chamge_arbiter_backend_set_edge_handler: the arguments say which callbacks are not NULL.
  unfoldable pub set_edge_handler : Bool → Bool → Bool → ArbiterBackend → ArbiterBackend
  set_edge_handler enrolled delisted requested b = record b {
    edge_enrolled = enrolled;
    edge_delisted = delisted;
    edge_connection_requested = requested;
  }

  unfoldable pub set_hub_handler : Bool → Bool → ArbiterBackend → ArbiterBackend
  set_hub_handler enrolled delisted b = record b {
    hub_enrolled = enrolled;
    hub_delisted = delisted;
  }

  -- Whether the class of the backend has the method `approve`, which only prints.
  abbrev pub approves : Implementation → Bool
  approves mock_backend = false
  approves (amqp_backend o) = true

  -- chamge_arbiter_backend_edge_delisted and its siblings of hubs: a closure that is set emits its
  -- signal, whose handlers are given.
  pub invoked : {S : Type 0} → Bool → (Text → S → S) → Text → S → S
  invoked set signal uid x = if set then signal uid x else x

  -- chamge_arbiter_backend_edge_enrolled: it returns at once where there is no `approve`.
  pub invoked_if_approved : {S : Type 0} → ArbiterBackend → (Text → S → S) → Text → S → S
  unfolding invoked
  invoked_if_approved b signal uid x =
      if approves b.implementation then invoked b.edge_enrolled signal uid x else x

  pub backend_handlers : {S : Type 0} → ArbiterBackend → Handlers S → Handlers S
  unfolding invoked invoked_if_approved
  backend_handlers b signals = record {
    edge_enrolled = invoked_if_approved b signals.edge_enrolled;
    edge_delisted = invoked b.edge_delisted signals.edge_delisted;
    hub_enrolled = invoked b.hub_enrolled signals.hub_enrolled;
    hub_delisted = invoked b.hub_delisted signals.hub_delisted;
  }

  backend_of : Implementation → ArbiterBackend
  backend_of i = record {
    implementation = i;
    edge_enrolled = false;
    edge_delisted = false;
    edge_connection_requested = false;
    hub_enrolled = false;
    hub_delisted = false;
  }

  -- chamge_arbiter_backend_new.
  unfoldable pub backend_new : BackendKind → Net r → Run (ArbiterBackend × Net r)
  unfolding backend_of
  backend_new amqp s = object_init r s >>= λ (o, s'). ret (backend_of (amqp_backend o), s')
  backend_new kind s = ret (backend_of mock_backend, s)

  ensure_backend : ArbiterData → Run (ArbiterBackend × Net r)
  unfolding backend_new
  ensure_backend d = elim d.arbiter_backend [
    | none ↦ backend_new d.kind d.net
    | some b ↦ ret (b, d.net)
  ]

  -- g_clear_object: the last reference goes.
  pub clear_backend : ArbiterData → ArbiterData
  clear_backend d = elim d.arbiter_backend [
    | none ↦ d
    | some b ↦ elim b.implementation [
      | mock_backend ↦ record d { arbiter_backend = none }
      | amqp_backend o ↦ record d { arbiter_backend = none; net = dispose r o d.net }
    ]
  ]

  with_implementation :
      ArbiterData → ArbiterBackend → Return × Implementation × Net r → Return × ArbiterData
  with_implementation d b (x, i, s) =
      (x, record d { arbiter_backend = some (record b { implementation = i }); net = s })

  pub implementation_activate : Implementation → Net r → Return × Implementation × Net r
  implementation_activate mock_backend s = (ok, mock_backend, s)
  implementation_activate (amqp_backend o) s =
      let (x, o', s') = Arbiter.activate r o s in (x, amqp_backend o', s')

  pub implementation_deactivate : Implementation → Net r → Return × Implementation × Net r
  implementation_deactivate mock_backend s = (ok, mock_backend, s)
  implementation_deactivate (amqp_backend o) s =
      let (x, o', s') = Arbiter.deactivate r o s in (x, amqp_backend o', s')

module _ (g : Glib) (r : Rabbit) (cfg : Config) where
  implementation_enroll : Implementation r → Net r → Run (Return × Net r)
  implementation_enroll mock_backend s = ret (ok, s)
  implementation_enroll (amqp_backend o) s = Arbiter.enroll g r cfg o s

  unfoldable pub arbiter_enroll : Option Text → ArbiterData r → Run (Return × ArbiterData r)
  unfolding ensure_backend implementation_enroll set_edge_handler set_hub_handler
  arbiter_enroll uid d = ensure_backend r d >>= λ (b, s).
      let b' = set_hub_handler r true true (set_edge_handler r true true false b) in
      implementation_enroll b'.implementation s >>= λ (x, s').
      ret (x, record d { arbiter_backend = some b'; net = s' })

  pub arbiter_delist : Option Text → ArbiterData r → Run (Return × ArbiterData r)
  unfolding clear_backend
  arbiter_delist uid d = elim d.arbiter_backend [
    | none ↦ ret (fail, d)
    | some b ↦ elim b.implementation [
      | mock_backend ↦ ret (ok, clear_backend r d)
      | amqp_backend o ↦
          let (x, s') = Arbiter.delist r o d.net in ret (x, clear_backend r (record d { net = s' }))
    ]
  ]

  unfoldable pub arbiter_activate : Option Text → ArbiterData r → Run (Return × ArbiterData r)
  unfolding implementation_activate with_implementation
  arbiter_activate uid d = elim d.arbiter_backend [
    | none ↦ ret (fail, d)
    | some b ↦ ret (with_implementation r d b (implementation_activate r b.implementation d.net))
  ]

  unfoldable pub arbiter_deactivate : Option Text → ArbiterData r → Run (Return × ArbiterData r)
  unfolding implementation_deactivate with_implementation
  arbiter_deactivate uid d = elim d.arbiter_backend [
    | none ↦ ret (fail, d)
    | some b ↦ ret (with_implementation r d b (implementation_deactivate r b.implementation d.net))
  ]

  -- The mock backend has no `user_command`. The fuel is that of the wait for the answer.
  pub arbiter_user_command : ℕ → Option Text → Text → ArbiterData r → Run (Reply × ArbiterData r)
  arbiter_user_command fuel uid cmd d = elim d.arbiter_backend [
    | none ↦ ret (record { result = fail; out = none; error = none }, d)
    | some b ↦ elim b.implementation [
      | mock_backend ↦ ret (record { result = fail; out = none; error = none }, d)
      | amqp_backend o ↦
          Command.user_command g r fuel cfg cmd d.net >>= λ (p, s'). ret (p, record d { net = s' })
    ]
  ]

  -- chamge_arbiter_class_init; `get_uid` is that of the node.
  unfoldable pub arbiter_class : ℕ → Class (ArbiterData r)
  unfolding class_init
  arbiter_class fuel = record class_init {
    enroll_method = some arbiter_enroll;
    delist_method = some arbiter_delist;
    activate_method = some arbiter_activate;
    deactivate_method = some arbiter_deactivate;
    user_command_method = some (arbiter_user_command fuel);
  }
