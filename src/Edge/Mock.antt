-- ===== src/Edge/Mock.antt =====
-- The life of an edge with the mock backend (chamge/mock-edge-backend.c, chamge/edge.c,
-- chamge/node.c).
use chamge.Prelude.{◌≡◌, ◌≢◌, refl, Option, none, Text, Run, ret, ◌>>=◌}
use chamge.Types.{Return, ok, BackendKind, unknown, mock, amqp}
use chamge.Glib.{Glib}
use chamge.Amqp.{Rabbit, Net}
use chamge.Backend.{Config}
use chamge.Node
use chamge.Node.{Node, init, after, run_method, commit_locked, lock, unlock}
use chamge.Node.Calls.{enrolls, delists, activates, deactivates, call}
use chamge.Node.Signal.{silent}
use chamge.Edge.{EdgeData, edge_class, edge_enroll, edge_delist, edge_activate, edge_deactivate}

module _ (g : Glib) (r : Rabbit) (cfg : Config) where
  -- The four calls in the order of a life, each of which must return CHAMGE_RETURN_OK.
  abbrev pub life : Node (EdgeData r) → Run (Return × Node (EdgeData r))
  life n = call g (edge_class g r cfg) silent enrolls n >>= λ p.
      call g (edge_class g r cfg) silent activates p.1 >>= λ q.
      call g (edge_class g r cfg) silent deactivates q.1 >>= λ v.
      call g (edge_class g r cfg) silent delists v.1

  -- A new edge whose backend is not the one for AMQP can be enrolled, activated, deactivated and
  -- delisted in turn, and is then again as it was when it was new, where no handler does anything.
  pub mock_edge_life :
      (uid : Option Text) (kind : BackendKind) (s : Net r)
      → kind ≢ amqp
      → let n : Node (EdgeData r) =
          init uid (record { kind = kind; edge_backend = none; net = s }) in
        life n ≡ ret (ok, n)
  unfolding init call Node.enroll edge_class run_method edge_enroll Node.activate edge_activate
      Node.deactivate edge_deactivate Node.delist edge_delist
  mock_edge_life uid unknown s h = refl
  mock_edge_life uid mock s h = refl
  mock_edge_life uid amqp s h = absurd (h refl)
