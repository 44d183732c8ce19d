-- ===== src/Edge/Tests.antt =====
-- The edge node over the sample broker (chamge/edge.c).
use chamge.Prelude.{◌≡◌, refl, true, false, ◌∷◌, none, some, [], codes, ret, arith}
use chamge.Types.{fail, ok, activated, enrolled, amqp}
use chamge.Amqp.{destroys, ◌>>=◌}
use chamge.Samples.{sample_glib, sample_rabbit, sample_config, net}
use chamge.Backend.{Config, dispose}
use chamge.Backend.Edge
use chamge.Node
use chamge.Node.{after, run_method, commit_locked, lock, unlock, Node, delist, run_method}
use chamge.Node.Calls.{delists, activates, call, here, next, calls}
use chamge.Node.Signal.{silent}
use chamge.Edge.{
  edge_activate, implementation_activate, EdgeData, edge_class, edge_delist, amqp_backend,
}
use chamge.Rpc.Tests.{activating, after_subscription}
use chamge.Backend.Edge.Tests.{fresh, watching, requested_log, activate_lem}
use chamge.Node.Rule.{IsPassive}
use chamge.Edge.Watch.{IsWatched, IsWatched-only_activated}
use chamge.Node.{init}
use chamge.Edge.Stuck.{stuck_after_failed_delist}

-- The configured URI is no URI.
abbrev bad_config : Config
bad_config = record sample_config { amqp_uri = [] }

abbrev enrolled_edge : Node (EdgeData sample_rabbit)
enrolled_edge = record {
  uid = some (codes "e1");
  state = enrolled;
  locked = false;
  timers = [];
  self = record {
    kind = amqp;
    edge_backend = some (record {
      implementation = amqp_backend (record { amqp_conn = tt; activated = false; process_id = 0 });
      user_command = true;
    });
    net = net [];
  };
}

abbrev dropped : Node (EdgeData sample_rabbit)
dropped = record enrolled_edge {
  self = record {
    kind = amqp;
    edge_backend = none;
    net = record { world = []; log = destroys ∷ [] };
  };
}

delists_lem :
    call sample_glib (edge_class sample_glib sample_rabbit bad_config) silent delists enrolled_edge
    ≡ ret (fail, dropped)
unfolding call delist run_method edge_class edge_delist Edge.delist ◌>>=◌ dispose
delists_lem = refl

-- The activation of an edge that failed to delist.
stuck_after_failed_delist_example :
    (dropped ≡ dropped)
    × (enrolled ≡ enrolled)
    × (call sample_glib (edge_class sample_glib sample_rabbit bad_config) silent activates dropped
        ≡ ret (fail, dropped))
stuck_after_failed_delist_example =
    stuck_after_failed_delist sample_glib sample_rabbit bad_config silent enrolled_edge dropped
      dropped activates (λ e. ground arith) delists_lem here

-- The edge activates: then its backend holds the source 1.
abbrev fresh_edge : Node (EdgeData sample_rabbit)
fresh_edge = record enrolled_edge {
  self = record {
    kind = amqp;
    edge_backend = some (record { implementation = amqp_backend fresh; user_command = true });
    net = net activating;
  };
}

abbrev activated_edge : Node (EdgeData sample_rabbit)
activated_edge = record enrolled_edge {
  state = activated;
  self = record {
    kind = amqp;
    edge_backend = some (record { implementation = amqp_backend watching; user_command = true });
    net = after_subscription requested_log;
  };
}

edge_activates :
    call sample_glib
      (edge_class sample_glib sample_rabbit sample_config)
      silent
      activates
      fresh_edge
    ≡ ret (ok, activated_edge)
unfolding call Node.activate after run_method commit_locked lock unlock edge_class edge_activate
    implementation_activate
edge_activates = ground (arith, activate_lem)

silent-IsPassive : IsPassive {S = EdgeData sample_rabbit} silent
silent-IsPassive = record { passes = λ s n m h. ground arith }

IsWatched-only_activated_example : IsWatched sample_rabbit activated activated_edge.self
IsWatched-only_activated_example =
    IsWatched-only_activated sample_glib sample_rabbit sample_config silent silent-IsPassive
      (λ away. refl) (next here (calls activates ok edge_activates))
