-- ===== src/Application.antt =====
-- hwangsaeul/application.c: an application that owns a name on the system bus if it is a service,
-- and whose exit status tells of a failure there.
pub mod Tests
use chamge.Prelude.{
  ℕ, ◌≡◌, ◌↔◌, refl, Bool, true, false, ◌||◌, ◌&&◌, List, [], ◌∷◌, ◌==◌, if◌then◌else◌, arith,
}

-- HwangsaeulApplicationPrivate, and whether g_application_quit was called.
pub record Application : Type 0 where
  pub exit_status : ℕ
  pub quits : Bool

-- The callbacks of g_bus_own_name: the name was acquired, and whether `dbus_register` of the class
-- then set an error; the name was lost, and whether there is a connection.
pub data BusEvent : Type 0 where
  name_acquired : Bool → BusEvent
  name_lost : Bool → BusEvent

pub dbus_name_acquired : Bool → Application → Application
dbus_name_acquired error self = if error then record { exit_status = 1; quits = true } else self

pub dbus_name_lost : Bool → Application → Application
dbus_name_lost connection self = record { exit_status = 1; quits = true }

pub handle_event : BusEvent → Application → Application
handle_event (name_acquired error) self = dbus_name_acquired error self
handle_event (name_lost connection) self = dbus_name_lost connection self

-- The callbacks that run before the loop of the application ends; after g_application_quit there
-- may be more of them.
pub handle_events : List BusEvent → Application → Application
handle_events [] self = self
handle_events (e ∷ events) self = handle_events events (handle_event e self)

-- hwangsaeul_application_startup: the name is owned only by a child of the process 1.
pub application_startup : ℕ → List BusEvent → Application → Application
application_startup ppid events self = if ppid == 1 then handle_events events self else self

-- hwangsaeul_application_run, where g_application_run returns `status`.
pub application_run : ℕ → ℕ → List BusEvent → ℕ
application_run status ppid events =
    let self = application_startup ppid events (record { exit_status = 0; quits = false }) in
    if status == 0 then self.exit_status else status

-- An independent description: which callbacks tell of a failure.
pub fails : BusEvent → Bool
fails (name_acquired error) = error
fails (name_lost connection) = true

pub any_fails : List BusEvent → Bool
any_fails [] = false
any_fails (e ∷ events) = fails e || any_fails events

handle_events-status :
    (events : List BusEvent) (self : Application)
    → ((handle_events events self).exit_status ≡ 0)
      ↔ ((self.exit_status ≡ 0) × (any_fails events ≡ false))
unfolding handle_events handle_event dbus_name_acquired dbus_name_lost fails any_fails
handle_events-status [] self = ground arith
handle_events-status (name_acquired true ∷ events) self =
    ground (arith, handle_events-status events (record { exit_status = 1; quits = true }))
handle_events-status (name_acquired false ∷ events) self =
    ground (arith, handle_events-status events self)
handle_events-status (name_lost c ∷ events) self =
    ground (arith, handle_events-status events (record { exit_status = 1; quits = true }))

-- The process exits with 0 exactly if g_application_run gave 0 and, where the parent is the process
-- 1, no callback of the bus told of a failure, in whatever order they came.
pub application_run-status :
    (status ppid : ℕ) (events : List BusEvent)
    → (application_run status ppid events ≡ 0)
      ↔ ((status ≡ 0) × ((ppid == 1 && any_fails events) ≡ false))
unfolding application_run application_startup
application_run-status status ppid events =
    let known = handle_events-status events (record { exit_status = 0; quits = false }) in
    ground (arith, known)
