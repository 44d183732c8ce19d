-- ===== src/Agent/Replay/Registry.antt =====
-- The ids that the agent keeps, up to the order and the repetitions of its lists, and signals that
-- come in another order (agent/arbiter-agent.c).
use chamge.Prelude.{◌≡◌, Bool, some, Text}
use mathlib.Core.Quot
use mathlib.Core.Quot.{Quot}
use chamge.Glib.{Glib}
use chamge.Agent.{Agent, is_enrolled}
use chamge.Agent.Replay.{Kind, list_of}

-- Two agents that find the same ids.
abbrev pub SameIds : Agent → Agent → Type 0
SameIds a b =
    (kind : Kind) (id : Text)
    → is_enrolled (list_of kind a) (some id) ≡ is_enrolled (list_of kind b) (some id)

-- The lists of an agent without their order and repetitions.
abbrev pub Registry : Type 0
Registry = Quot SameIds

abbrev pub registry : Agent → Registry
registry = Quot.mk

enrolled_in : Kind → Text → Registry → Bool
enrolled_in kind id =
    Quot.lift (hlevel) (λ a. is_enrolled (list_of kind a) (some id)) λ a b same. same kind id
