-- ===== src/Hub/Mock.antt =====
-- A hub with the mock backend: user commands (chamge/mock-hub-backend.c, chamge/hub-backend.c,
-- chamge/hub.c, chamge/node.c).
use chamge.Prelude.{◌≡◌, ◌≢◌, refl, Option, none, Text, Run, stop, null_read, ◌>>=◌}
use chamge.Types.{BackendKind, unknown, mock, amqp}
use chamge.Glib.{Glib}
use chamge.Amqp.{Rabbit, Net}
use chamge.Backend.{Config}
use chamge.Node
use chamge.Node.{Node, Reply, init, after, run_method, commit_locked, lock, unlock}
use chamge.Node.Calls.{enrolls, activates, call}
use chamge.Node.Signal.{silent}
use chamge.Hub.{HubData, hub_class, hub_enroll, hub_activate, hub_user_command}

module _ (g : Glib) (r : Rabbit) (cfg : Config) where
  -- A hub that is enrolled and activated, and is then given a command.
  abbrev commanded : Text → Node (HubData r) → Run (Reply × Node (HubData r))
  commanded cmd n = call g (hub_class g r cfg) silent enrolls n >>= λ p.
      call g (hub_class g r cfg) silent activates p.1 >>= λ q.
      Node.user_command g (hub_class g r cfg) silent cmd q.1

  -- A new hub whose backend is not the one for AMQP, that is enrolled and activated, calls NULL on
  -- every user command, where no handler does anything.
  mock_hub_user_command :
      (uid : Option Text) (kind : BackendKind) (cmd : Text) (s : Net r)
      → kind ≢ amqp
      → commanded cmd (init uid (record { kind = kind; hub_backend = none; net = s }))
        ≡ stop null_read
  unfolding init call Node.enroll hub_class run_method hub_enroll Node.activate hub_activate
      Node.user_command hub_user_command
  mock_hub_user_command uid unknown cmd s h = refl
  mock_hub_user_command uid mock cmd s h = refl
  mock_hub_user_command uid amqp cmd s h = absurd (h refl)
