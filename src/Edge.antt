-- ===== src/Edge.antt =====
-- chamge/edge.c, chamge/edge-backend.c and chamge/mock-edge-backend.c: an edge is a node whose
-- methods are those of a backend, which it creates on enrolling and drops on delisting. The drop
-- releases the only reference to the backend, so it is disposed of.
pub mod Enrolment
pub mod Tests
pub mod Stuck
pub mod Watch
pub mod Mock
pub mod Life
pub mod References
use chamge.Prelude.{
  Bool, true, false, Option, none, some, Text, codes, if◌then◌else◌, Run, ret, stop, ◌>>=◌,
}
use chamge.Types.{Return, ok, fail, BackendKind, amqp, mock, NodeState, activated, Error}
use chamge.Glib.{Glib}
use chamge.Amqp.{Rabbit, Net}
use chamge.Backend.{Config, Object, object_init, dispose}
use chamge.Backend.Edge
use chamge.Node.{Node, Class, class_init, get_state, Reply}

module _ (r : Rabbit) where
  -- The two classes of backends.
  pub data Implementation : Type 0 where
    mock_backend : Implementation
    amqp_backend : Object r → Implementation

  -- `user_command`: the closure is set.
  pub record EdgeBackend : Type 0 where
    pub implementation : Implementation
    pub user_command : Bool

  -- ChamgeEdgePrivate, and the world.
  pub record EdgeData : Type 0 where
    pub kind : BackendKind
    pub edge_backend : Option EdgeBackend
    pub net : Net r

module _ (g : Glib) (r : Rabbit) (cfg : Config) where
  -- chamge_edge_backend_new.
  pub backend_new : BackendKind → Net r → Run (EdgeBackend r × Net r)
  backend_new amqp s = object_init r s >>= λ (o, s').
      ret (record { implementation = amqp_backend o; user_command = false }, s')
  backend_new kind s = ret (record { implementation = mock_backend; user_command = false }, s)

  pub implementation_enroll : Option Text → Implementation r → Net r → Run (Return × Net r)
  implementation_enroll uid mock_backend s = ret (ok, s)
  implementation_enroll uid (amqp_backend o) s = Edge.enroll g r cfg uid o s

  pub implementation_delist : Option Text → Implementation r → Net r → Run (Return × Net r)
  implementation_delist uid mock_backend s = ret (ok, s)
  implementation_delist uid (amqp_backend o) s = Edge.delist g r cfg uid o s

  pub implementation_activate :
      Option Text → Implementation r → Net r → Run (Return × Implementation r × Net r)
  implementation_activate uid mock_backend s = ret (ok, mock_backend, s)
  implementation_activate uid (amqp_backend o) s =
      Edge.activate g r cfg uid o s >>= λ (x, o', s'). ret (x, amqp_backend o', s')

  pub implementation_deactivate : Implementation r → Net r → Return × Implementation r × Net r
  implementation_deactivate mock_backend s = (ok, mock_backend, s)
  implementation_deactivate (amqp_backend o) s =
      let (x, o', s') = Edge.deactivate r o s in (x, amqp_backend o', s')

  -- g_clear_object: the last reference goes.
  pub clear_backend : EdgeData r → EdgeData r
  clear_backend d = elim d.edge_backend [
    | none ↦ d
    | some b ↦ elim b.implementation [
      | mock_backend ↦ record d { edge_backend = none }
      | amqp_backend o ↦ record d { edge_backend = none; net = dispose r o d.net }
    ]
  ]

  -- `if (priv->edge_backend == NULL) priv->edge_backend = chamge_edge_backend_new (self);`
  ensure_backend : EdgeData r → Run (EdgeBackend r × Net r)
  unfolding backend_new
  ensure_backend d = elim d.edge_backend [
    | none ↦ backend_new d.kind d.net
    | some b ↦ ret (b, d.net)
  ]

  pub edge_enroll : Option Text → EdgeData r → Run (Return × EdgeData r)
  unfolding ensure_backend implementation_enroll
  edge_enroll uid d = ensure_backend d >>= λ (b, s).
      let b' : EdgeBackend r = record b { user_command = true } in
      implementation_enroll uid b'.implementation s >>= λ (x, s').
      ret (x, record d { edge_backend = some b'; net = s' })

  pub edge_delist : Option Text → EdgeData r → Run (Return × EdgeData r)
  unfolding implementation_delist clear_backend
  edge_delist uid d = elim d.edge_backend [
    | none ↦ ret (fail, d)
    | some b ↦ implementation_delist uid b.implementation d.net >>= λ (x, s').
        ret (x, clear_backend (record d { net = s' }))
  ]

  pub edge_activate : Option Text → EdgeData r → Run (Return × EdgeData r)
  unfolding implementation_activate
  edge_activate uid d = elim d.edge_backend [
    | none ↦ ret (fail, d)
    | some b ↦ implementation_activate uid b.implementation d.net >>= λ (x, i, s').
        ret (x, record d { edge_backend = some (record b { implementation = i }); net = s' })
  ]

  pub edge_deactivate : Option Text → EdgeData r → Run (Return × EdgeData r)
  unfolding implementation_deactivate
  edge_deactivate uid d = elim d.edge_backend [
    | none ↦ ret (fail, d)
    | some b ↦
        let (x, i, s') = implementation_deactivate b.implementation d.net in
        ret (x, record d { edge_backend = some (record b { implementation = i }); net = s' })
  ]

  -- chamge_edge_class_init; `get_uid` and `user_command` are those of the node.
  pub edge_class : Class (EdgeData r)
  unfolding class_init
  edge_class = record class_init {
    enroll_method = some edge_enroll;
    delist_method = some edge_delist;
    activate_method = some edge_activate;
    deactivate_method = some edge_deactivate;
  }

  -- chamge_edge_request_target_uri: only an activated edge has one.
  pub request_target_uri : Node (EdgeData r) → Run (Option Text × Node (EdgeData r))
  request_target_uri n = get_state n >>= λ (state, m). elim state [
    | activated ↦ elim m.self.edge_backend [
      | none ↦ ret (none, m)
      | some b ↦ ret (Edge.request_target_uri, m)
    ]
    | _ ↦ ret (none, m)
  ]
