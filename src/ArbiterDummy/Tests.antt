-- ===== src/ArbiterDummy/Tests.antt =====
-- A session of examples/arbiter-dummy.c over an arbiter that accepts everything.
use chamge.Prelude.{◌≡◌, refl, false, none, some, [], ◌∷◌, List, Text, codes, ret}
use chamge.Types.{ok, activated}
use chamge.Node
use chamge.Node.{Node, Class, Reply, init, class_init, run_method, default_method, user_command}
use chamge.Samples.{sample_glib}
use chamge.ArbiterDummy.{
  Context, Input, edge_enrolled, edge_delisted, hub_enrolled, press, do_user_command, started,
  react, send_to_first, goes_on, asserted, reported, command_text,
}
use chamge.ArbiterDummy.Session.{addressed, keys_address_newest}

-- An arbiter that keeps the commands, and answers each.
abbrev recorder : Class (List Text)
recorder = record class_init {
  user_command_method =
      some
        (λ uid cmd s. ret (record { result = ok; out = some (codes "{}"); error = none }, cmd ∷ s));
}

abbrev inputs : List Input
inputs =
    edge_enrolled (codes "e1")
    ∷ hub_enrolled (codes "h1")
    ∷ edge_enrolled (codes "e2")
    ∷ edge_delisted (codes "e2")
    ∷ []

abbrev begun : Context (List Text)
begun = record {
  arbiter = record (init (some (codes "a")) []) { state = activated };
  edges = [];
  hubs = [];
}

abbrev later : Context (List Text)
later = record begun { edges = codes "e2" ∷ codes "e1" ∷ []; hubs = codes "h1" ∷ [] }

-- The edge "e2" is delisted, and the command goes to it.
sent_to_delisted :
    press sample_glib recorder 115 later
    ≡ ret (
      false,
      record later {
        arbiter = record (later.arbiter) {
          self = command_text (codes "e2") (codes "streamingStart") ∷ [];
        };
      },
    )
unfolding press goes_on send_to_first reported user_command init
sent_to_delisted = refl

keys_address_newest_example :
    (press sample_glib recorder 115 later
      ≡ addressed sample_glib recorder (some (codes "e2")) (codes "streamingStart") later)
    × (press sample_glib recorder 116 later
        ≡ addressed sample_glib recorder (some (codes "e2")) (codes "streamingStop") later)
    × (press sample_glib recorder 114 later
        ≡ addressed sample_glib recorder (some (codes "h1")) (codes "recordingStart") later)
    × (press sample_glib recorder 120 later
        ≡ addressed sample_glib recorder (some (codes "h1")) (codes "recordingStop") later)
unfolding started asserted do_user_command react chamge.Node.enroll init class_init run_method
    default_method chamge.Node.activate
keys_address_newest_example =
    keys_address_newest sample_glib recorder inputs (init (some (codes "a")) []) begun later refl
      refl
