-- ===== src/Hub/Tests.antt =====
-- The hub node over the sample broker (chamge/hub.c).
use chamge.Prelude.{◌≡◌, refl, true, false, ◌∷◌, none, some, [], codes, ret, arith}
use chamge.Types.{fail, enrolled, amqp}
use chamge.Amqp.{destroys, ◌>>=◌}
use chamge.Samples.{sample_glib, sample_rabbit, sample_config, net}
use chamge.Backend.{Config, dispose}
use chamge.Backend.Hub
use chamge.Node.{Node, delist, run_method}
use chamge.Node.Calls.{delists, activates, call}
use chamge.Node.Signal.{silent}
use chamge.Hub.{HubData, hub_class, hub_delist, amqp_backend}
use chamge.Types.{ok, activated}
use chamge.Rpc.Tests.{activating, after_subscription}
use chamge.Backend.Hub.Tests.{fresh, watching, requested_log, hub_activate_lem}
use chamge.Hub.{hub_activate, implementation_activate}
use chamge.Node
use chamge.Node.{init, after, run_method, commit_locked, lock, unlock}

-- The configured URI is no URI.
abbrev bad_config : Config
bad_config = record sample_config { amqp_uri = [] }

abbrev enrolled_hub : Node (HubData sample_rabbit)
enrolled_hub = record {
  uid = some (codes "h1");
  state = enrolled;
  locked = false;
  timers = [];
  self = record {
    kind = amqp;
    hub_backend = some (record {
      implementation = amqp_backend (record { amqp_conn = tt; activated = false; process_id = 0 });
      user_command = true;
    });
    net = net [];
  };
}

abbrev dropped : Node (HubData sample_rabbit)
dropped = record enrolled_hub {
  self = record {
    kind = amqp;
    hub_backend = none;
    net = record { world = []; log = destroys ∷ [] };
  };
}

hub_delists_lem :
    call sample_glib (hub_class sample_glib sample_rabbit bad_config) silent delists enrolled_hub
    ≡ ret (fail, dropped)
unfolding call delist run_method hub_class hub_delist Hub.delist ◌>>=◌ dispose
hub_delists_lem = refl

-- The hub activates: then its backend holds the source 1.
abbrev fresh_hub : Node (HubData sample_rabbit)
fresh_hub = record enrolled_hub {
  uid = some (codes "e1");
  self = record {
    kind = amqp;
    hub_backend = some (record { implementation = amqp_backend fresh; user_command = true });
    net = net activating;
  };
}

abbrev activated_hub : Node (HubData sample_rabbit)
activated_hub = record enrolled_hub {
  uid = some (codes "e1");
  state = activated;
  self = record {
    kind = amqp;
    hub_backend = some (record { implementation = amqp_backend watching; user_command = true });
    net = after_subscription requested_log;
  };
}

hub_activates :
    call sample_glib (hub_class sample_glib sample_rabbit sample_config) silent activates fresh_hub
    ≡ ret (ok, activated_hub)
unfolding call Node.activate after run_method commit_locked lock unlock hub_class hub_activate
    implementation_activate
hub_activates = ground (arith, hub_activate_lem)
