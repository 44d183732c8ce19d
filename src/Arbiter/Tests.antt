-- ===== src/Arbiter/Tests.antt =====
-- An arbiter with the mock backend (chamge/arbiter.c).
use chamge.Backend.Arbiter.{Handlers}
use chamge.Prelude.{List, Text, ◌∷◌, ◌≡◌, refl, true, false, none, some, [], ret}
use chamge.Types.{ok, mock, null, enrolled}
use chamge.Samples.{sample_glib, sample_rabbit, sample_config, net}
use chamge.Node
use chamge.Node.{Node, Class}
use chamge.Arbiter.{
  arbiter_class, ArbiterData, mock_backend, arbiter_enroll, ensure_backend, backend_new, backend_of,
  implementation_enroll, set_edge_handler, set_hub_handler,
}

abbrev new_data : ArbiterData sample_rabbit
new_data = record { kind = mock; arbiter_backend = none; net = net [] }

abbrev enrolled_data : ArbiterData sample_rabbit
enrolled_data = record new_data {
  arbiter_backend = some (record {
    implementation = mock_backend;
    edge_enrolled = true;
    edge_delisted = true;
    edge_connection_requested = false;
    hub_enrolled = true;
    hub_delisted = true;
  });
}

enroll_lem :
    arbiter_enroll sample_glib sample_rabbit sample_config none new_data ≡ ret (ok, enrolled_data)
unfolding arbiter_enroll ensure_backend backend_new backend_of implementation_enroll
    set_edge_handler set_hub_handler
enroll_lem = refl

-- An arbiter with the mock backend enrols and is activated.
abbrev new_arbiter : Node (ArbiterData sample_rabbit)
new_arbiter = record { uid = none; state = null; locked = false; timers = []; self = new_data }

abbrev enrolled_arbiter : Node (ArbiterData sample_rabbit)
enrolled_arbiter = record new_arbiter { state = enrolled; self = enrolled_data }

abbrev sample_class : Class (ArbiterData sample_rabbit)
sample_class = arbiter_class sample_glib sample_rabbit sample_config 1

-- Handlers that add an id to a list.
abbrev adding : Handlers (List Text)
adding = record {
  edge_enrolled = λ uid x. uid ∷ x;
  edge_delisted = λ uid x. uid ∷ x;
  hub_enrolled = λ uid x. uid ∷ x;
  hub_delisted = λ uid x. uid ∷ x;
}
