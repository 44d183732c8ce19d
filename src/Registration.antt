-- ===== src/Registration.antt =====
-- The registration of the agents on the bus: `dbus_register`, `dbus_unregister` and `dispose`,
-- which agent/arbiter-agent.c and agent/edge-agent.c have as the same text.
use chamge.Prelude.{ℕ, ◌+◌, ◌-◌, ◌≡◌, Bool, true, false, if◌then◌else◌, arith}

-- Whether the skeleton is there and exported, and the count of g_application_hold.
pub record Registration : Type 0 where
  pub manager : Bool
  pub exported : Bool
  pub holds : ℕ

-- The instance function.
pub registration_init : Registration
registration_init = record { manager = true; exported = false; holds = 0 }

-- Whether the parent class registers, and whether the skeleton can be exported; if it cannot, the
-- result is TRUE all the same.
pub dbus_register : Bool → Bool → Registration → Bool × Registration
dbus_register parent exports self =
    let held : Registration = record self { holds = self.holds + 1 } in
    if parent then (true, record held { exported = exports }) else (false, held)

pub dbus_unregister : Registration → Registration
dbus_unregister self =
    if self.manager
    then record self { exported = false; holds = self.holds - 1 }
    else record self { holds = self.holds - 1 }

-- g_clear_object of the skeleton.
pub agent_dispose : Registration → Registration
agent_dispose self = record self { manager = false }

-- Whether the parent class registers or not, and whether the skeleton can be exported or not,
-- unregistering an agent that has its skeleton leaves it not exported and held as often as before.
pub dbus_unregister-dbus_register :
    (parent exports : Bool) (self : Registration)
    → self.manager ≡ true
    → dbus_unregister (dbus_register parent exports self).1 ≡ record self { exported = false }
unfolding dbus_unregister dbus_register
dbus_unregister-dbus_register parent exports self has = ground arith
