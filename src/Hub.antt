-- ===== src/Hub.antt =====
-- chamge/hub.c, chamge/hub-backend.c and chamge/mock-hub-backend.c: a hub is a node whose
-- methods are those of a backend, which it creates on enrolling and drops on delisting. The drop
-- releases the only reference to the backend, so it is disposed of.
pub mod Delisting
pub mod Tests
pub mod Stuck
pub mod Watch
pub mod Mock
pub mod Life
use chamge.Prelude.{
  Bool, true, false, Option, none, some, Text, codes, if◌then◌else◌, Run, ret, stop, ◌>>=◌,
  null_read,
}
use chamge.Types.{Return, ok, fail, BackendKind, amqp, mock, NodeState, activated, Error}
use chamge.Glib.{Glib}
use chamge.Amqp.{Rabbit, Net}
use chamge.Backend.{Config, Object, object_init, dispose}
use chamge.Backend.Hub
use chamge.Node.{Node, Class, class_init, get_state, Reply}

module _ (r : Rabbit) where
  -- The two classes of backends.
  pub data Implementation : Type 0 where
    mock_backend : Implementation
    amqp_backend : Object r → Implementation

  -- `user_command`: the closure is set.
  pub record HubBackend : Type 0 where
    pub implementation : Implementation
    pub user_command : Bool

  -- ChamgeHubPrivate, and the world.
  pub record HubData : Type 0 where
    pub kind : BackendKind
    pub hub_backend : Option HubBackend
    pub net : Net r

module _ (g : Glib) (r : Rabbit) (cfg : Config) where
  -- chamge_hub_backend_new.
  pub backend_new : BackendKind → Net r → Run (HubBackend r × Net r)
  backend_new amqp s = object_init r s >>= λ (o, s').
      ret (record { implementation = amqp_backend o; user_command = false }, s')
  backend_new kind s = ret (record { implementation = mock_backend; user_command = false }, s)

  pub implementation_enroll : Option Text → Implementation r → Net r → Run (Return × Net r)
  implementation_enroll uid mock_backend s = ret (ok, s)
  implementation_enroll uid (amqp_backend o) s = Hub.enroll g r cfg uid o s

  pub implementation_delist : Option Text → Implementation r → Net r → Run (Return × Net r)
  implementation_delist uid mock_backend s = ret (ok, s)
  implementation_delist uid (amqp_backend o) s = Hub.delist g r cfg uid o s

  pub implementation_activate :
      Option Text → Implementation r → Net r → Run (Return × Implementation r × Net r)
  implementation_activate uid mock_backend s = ret (ok, mock_backend, s)
  implementation_activate uid (amqp_backend o) s =
      Hub.activate g r cfg uid o s >>= λ (x, o', s'). ret (x, amqp_backend o', s')

  pub implementation_deactivate : Implementation r → Net r → Return × Implementation r × Net r
  implementation_deactivate mock_backend s = (ok, mock_backend, s)
  implementation_deactivate (amqp_backend o) s =
      let (x, o', s') = Hub.deactivate r o s in (x, amqp_backend o', s')

  -- g_clear_object: the last reference goes.
  pub clear_backend : HubData r → HubData r
  clear_backend d = elim d.hub_backend [
    | none ↦ d
    | some b ↦ elim b.implementation [
      | mock_backend ↦ record d { hub_backend = none }
      | amqp_backend o ↦ record d { hub_backend = none; net = dispose r o d.net }
    ]
  ]

  -- `if (priv->hub_backend == NULL) priv->hub_backend = chamge_hub_backend_new (self);`
  ensure_backend : HubData r → Run (HubBackend r × Net r)
  unfolding backend_new
  ensure_backend d = elim d.hub_backend [
    | none ↦ backend_new d.kind d.net
    | some b ↦ ret (b, d.net)
  ]

  pub hub_enroll : Option Text → HubData r → Run (Return × HubData r)
  unfolding ensure_backend implementation_enroll
  hub_enroll uid d = ensure_backend d >>= λ (b, s).
      let b' : HubBackend r = record b { user_command = true } in
      implementation_enroll uid b'.implementation s >>= λ (x, s').
      ret (x, record d { hub_backend = some b'; net = s' })

  pub hub_delist : Option Text → HubData r → Run (Return × HubData r)
  unfolding implementation_delist clear_backend
  hub_delist uid d = elim d.hub_backend [
    | none ↦ ret (fail, d)
    | some b ↦ implementation_delist uid b.implementation d.net >>= λ (x, s').
        ret (x, clear_backend (record d { net = s' }))
  ]

  pub hub_activate : Option Text → HubData r → Run (Return × HubData r)
  unfolding implementation_activate
  hub_activate uid d = elim d.hub_backend [
    | none ↦ ret (fail, d)
    | some b ↦ implementation_activate uid b.implementation d.net >>= λ (x, i, s').
        ret (x, record d { hub_backend = some (record b { implementation = i }); net = s' })
  ]

  pub hub_deactivate : Option Text → HubData r → Run (Return × HubData r)
  unfolding implementation_deactivate
  hub_deactivate uid d = elim d.hub_backend [
    | none ↦ ret (fail, d)
    | some b ↦
        let (x, i, s') = implementation_deactivate b.implementation d.net in
        ret (x, record d { hub_backend = some (record b { implementation = i }); net = s' })
  ]

  -- chamge_hub_user_command, through chamge_hub_backend_user_command_send, which guards another
  -- method than the one it calls: the mock backend has none, and NULL is called.
  pub hub_user_command : Option Text → Text → HubData r → Run (Reply × HubData r)
  hub_user_command uid cmd d = elim d.hub_backend [
    | none ↦ ret (record { result = fail; out = none; error = none }, d)
    | some b ↦ elim b.implementation [
      | mock_backend ↦ stop null_read
      | amqp_backend o ↦
          Hub.user_command_send g r cfg cmd d.net >>= λ (p, s'). ret (p, record d { net = s' })
    ]
  ]

  -- chamge_hub_class_init; `get_uid` is that of the node, which chamge_hub_get_uid agrees with.
  pub hub_class : Class (HubData r)
  unfolding class_init
  hub_class = record class_init {
    enroll_method = some hub_enroll;
    delist_method = some hub_delist;
    activate_method = some hub_activate;
    deactivate_method = some hub_deactivate;
    user_command_method = some hub_user_command;
  }
