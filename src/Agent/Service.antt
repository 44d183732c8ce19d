-- ===== src/Agent/Service.antt =====
-- The arbiter agent from its options to its calls over D-Bus (agent/arbiter-agent.c).
pub mod Tests
use chamge.Prelude.{◌≡◌, ◌≢◌, ◌⊎◌, true, false, Option, none, some, Text, Run, sym}
use chamge.Types.{BackendKind, unknown, null}
use chamge.Glib.{Glib}
use chamge.Node.{Node}
use chamge.Node.Calls.{here}
use chamge.Agent.Process.{Process, exited}
use chamge.Options.{LocalOptions}

-- The kind of backend that the options choose: 0 without the option, else that of the nickname.
abbrev pub Chosen : (Text → Option BackendKind) → LocalOptions → BackendKind → Type 0
Chosen value_by_nick options kind =
    (options.version ≡ false)
    × ((options.backend ≡ none) × (kind ≡ unknown)
        ⊎ ((nick : Text) × (options.backend ≡ some nick) × (value_by_nick nick ≡ some kind)))
