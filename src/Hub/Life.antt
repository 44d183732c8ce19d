-- ===== src/Hub/Life.antt =====
-- The making and disposal of a hub (chamge/hub.c).
use chamge.Prelude.{◌≡◌, refl, Option, none, some, Text, Run, ret, arith}
use chamge.Types.{BackendKind, unknown, Return, ok, fail}
use chamge.Glib.{Glib}
use chamge.Amqp.{Rabbit, Net}
use chamge.Backend.{Config}
use chamge.Node.{Node, Handler, init, get_uid, class_init, get_uid_default}
use chamge.Node.Calls.{Reach}
use chamge.Node.Rule.{IsPassive}
use chamge.Node.Life.{set_backend, new_full, new, node_dispose, new_full-init}
use chamge.Hub.{HubData, clear_backend, hub_class}
use chamge.Hub.Watch.{IsWatched, IsWatched-only_activated_hub}

module _ (r : Rabbit) where
  fresh : Net r → HubData r
  fresh s = record { kind = unknown; hub_backend = none; net = s }

  kind_of : HubData r → BackendKind
  kind_of d = d.kind

  assign : BackendKind → HubData r → HubData r
  assign k d = record d { kind = k }

  pub hub_set_property : BackendKind → HubData r → Run (HubData r)
  unfolding kind_of assign set_backend
  hub_set_property k d = set_backend kind_of assign k d

  pub hub_new_full : Option Text → BackendKind → Net r → Run (Node (HubData r))
  unfolding fresh kind_of assign new_full
  hub_new_full uid k s = new_full kind_of assign uid k (fresh s)

  pub hub_new : Option Text → Net r → Run (Node (HubData r))
  unfolding fresh kind_of assign new
  hub_new uid s = new kind_of assign uid (fresh s)

module _ (g : Glib) (r : Rabbit) (cfg : Config) where
  pub hub_dispose : Node (HubData r) → Node (HubData r)
  unfolding node_dispose
  hub_dispose n = node_dispose (record n { self = clear_backend g r cfg n.self })

  -- A hub with a uid can be made with any kind of backend, and in all that follows, if no handler
  -- of "state-changed" changes the state or the data, its backend holds the id of an event source
  -- only while the hub is ACTIVATED.
  pub hub_new_full-IsWatched :
      (h : Handler (HubData r)) (uid : Text) (k : BackendKind) (s : Net r) (m : Node (HubData r))
      → IsPassive h
      → (n : Node (HubData r)) × (hub_new_full r (some uid) k s ≡ ret n)
        × (Reach g (hub_class g r cfg) h n m → IsWatched r m.state m.self)
  unfolding hub_new_full fresh kind_of assign init
  hub_new_full-IsWatched h uid k s m passive =
      let n = init (some uid) (assign r k (fresh r s)) in
      (
        n,
        new_full-init (kind_of r) (assign r) uid k (fresh r s) refl,
        IsWatched-only_activated_hub g r cfg h {n = n} {m = m} passive (λ away. refl),
      )

-- chamge_hub_get_uid_default and chamge_hub_get_uid.
pub hub_get_uid_default : {S : Type 0} → Node S → Option Text
hub_get_uid_default n = n.uid

pub hub_get_uid : {S : Type 0} → Node S → Return × Option Text
unfolding hub_get_uid_default
hub_get_uid n = elim (hub_get_uid_default n) [ none ↦ (fail, none) | some uid ↦ (ok, some uid) ]

-- A hub gives its uid as its node does.
pub hub_get_uid-get_uid :
    (g : Glib) (r : Rabbit) (cfg : Config) (h : Handler (HubData r)) (n : Node (HubData r))
    → hub_get_uid n ≡ get_uid g (hub_class g r cfg) h n
unfolding hub_get_uid hub_get_uid_default get_uid hub_class class_init get_uid_default
hub_get_uid-get_uid g r cfg h n = ground arith
