-- ===== src/Options.antt =====
-- The options and properties of the two agents: `handle_local_options`, and the properties "host"
-- and "backend", which agent/arbiter-agent.c and agent/edge-agent.c have as the same text. The
-- nicknames of the backends come from a file that the build generates, and are a parameter.
use chamge.Prelude.{ℕ, Bool, Option, none, some, Text, if◌then◌else◌}
use chamge.Types.{BackendKind, unknown}

-- What the dictionary of options has.
pub record LocalOptions : Type 0 where
  pub version : Bool
  pub host : Option Text
  pub backend : Option Text

-- A property with the value that it is set to.
pub data Setting : Type 0 where
  host : Option Text → Setting
  backend : BackendKind → Setting

-- The field `backend` is all that the properties store; it starts as 0.
abbrev pub initial_backend : BackendKind
initial_backend = unknown

unfoldable pub set_property : Setting → BackendKind → BackendKind
set_property (host t) b = b
set_property (backend k) b = k

-- EXIT_SUCCESS, or -1, by which GApplication goes on.
pub data Verdict : Type 0 where
  exits : ℕ → Verdict
  continues : BackendKind → Verdict

module _ (value_by_nick : Text → Option BackendKind) where
  set_host : Option Text → BackendKind → BackendKind
  set_host none b = b
  set_host (some t) b = set_property (host (some t)) b

  set_backend : Option Text → BackendKind → Verdict
  set_backend none b = continues b
  set_backend (some nick) b = elim (value_by_nick nick) [
    | none ↦ exits 0
    | some k ↦ continues (set_property (backend k) b)
  ]

  -- The result, with the field `backend` where the agent goes on.
  unfoldable pub handle_local_options : LocalOptions → BackendKind → Verdict
  unfolding set_property set_host set_backend
  handle_local_options options b =
      if options.version then exits 0 else set_backend options.backend (set_host options.host b)

-- What the properties "host" and "backend" give: both read the field `backend`.
pub data PropertyId : Type 0 where
  prop_host prop_backend : PropertyId

pub get_property : PropertyId → BackendKind → BackendKind
get_property prop_host b = b
get_property prop_backend b = b
