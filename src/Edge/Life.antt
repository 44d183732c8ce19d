-- ===== src/Edge/Life.antt =====
-- The making and disposal of an edge (chamge/edge.c).
use chamge.Prelude.{◌≡◌, refl, Option, none, some, Text, Run, ret}
use chamge.Types.{BackendKind, unknown}
use chamge.Glib.{Glib}
use chamge.Amqp.{Rabbit, Net}
use chamge.Backend.{Config}
use chamge.Node.{Node, Handler, init}
use chamge.Node.Calls.{Reach}
use chamge.Node.Rule.{IsPassive}
use chamge.Node.Life.{set_backend, new_full, new, node_dispose, new_full-init}
use chamge.Edge.{EdgeData, clear_backend, edge_class}
use chamge.Edge.Watch.{IsWatched, IsWatched-only_activated}

module _ (r : Rabbit) where
  fresh : Net r → EdgeData r
  fresh s = record { kind = unknown; edge_backend = none; net = s }

  kind_of : EdgeData r → BackendKind
  kind_of d = d.kind

  assign : BackendKind → EdgeData r → EdgeData r
  assign k d = record d { kind = k }

  pub edge_set_property : BackendKind → EdgeData r → Run (EdgeData r)
  unfolding kind_of assign set_backend
  edge_set_property k d = set_backend kind_of assign k d

  pub edge_new_full : Option Text → BackendKind → Net r → Run (Node (EdgeData r))
  unfolding fresh kind_of assign new_full
  edge_new_full uid k s = new_full kind_of assign uid k (fresh s)

  pub edge_new : Option Text → Net r → Run (Node (EdgeData r))
  unfolding fresh kind_of assign new
  edge_new uid s = new kind_of assign uid (fresh s)

module _ (g : Glib) (r : Rabbit) (cfg : Config) where
  pub edge_dispose : Node (EdgeData r) → Node (EdgeData r)
  unfolding node_dispose
  edge_dispose n = node_dispose (record n { self = clear_backend g r cfg n.self })

  -- An edge with a uid can be made with any kind of backend, and in all that follows, if no handler
  -- of "state-changed" changes the state or the data, its backend holds the id of an event source
  -- only while the edge is ACTIVATED.
  pub edge_new_full-IsWatched :
      (h : Handler (EdgeData r)) (uid : Text) (k : BackendKind) (s : Net r) (m : Node (EdgeData r))
      → IsPassive h
      → (n : Node (EdgeData r)) × (edge_new_full r (some uid) k s ≡ ret n)
        × (Reach g (edge_class g r cfg) h n m → IsWatched r m.state m.self)
  unfolding edge_new_full fresh kind_of assign init
  edge_new_full-IsWatched h uid k s m passive =
      let n = init (some uid) (assign r k (fresh r s)) in
      (
        n,
        new_full-init (kind_of r) (assign r) uid k (fresh r s) refl,
        IsWatched-only_activated g r cfg h {n = n} {m = m} passive (λ away. refl),
      )
