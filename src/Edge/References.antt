-- ===== src/Edge/References.antt =====
-- The references between an edge and its backend (chamge/edge.c, chamge/edge-backend.c,
-- chamge/amqp-edge-backend.c; the files of the hub have the same text): the edge points to the
-- backend, which holds a reference to the edge. A count of 0 disposes of the object.
pub mod Tests
use chamge.Prelude.{
  ℕ, zero, suc, ◌+◌, ◌-◌, ◌≡◌, ◌↔◌, refl, Bool, true, false, not, ◌&&◌, ◌||◌, ◌==◌, if◌then◌else◌,
  arith, Bool-cases, inl, inr,
}

-- The two counts, and the pointers `priv->edge_backend` and `priv->edge`, where not NULL.
pub record Store : Type 0 where
  pub edge : ℕ
  pub edge_backend : Bool
  pub backend : ℕ
  pub backend_edge : Bool
  pub disposed : Bool

-- The instance that g_object_new makes, with the reference of its maker.
pub made_edge : Store
made_edge = record {
  edge = 1;
  edge_backend = false;
  backend = 0;
  backend_edge = false;
  disposed = false;
}

-- The reference of the backend goes. At 0 the edge is disposed of; its pointer to the backend is
-- NULL by then, since g_clear_object sets it before it releases.
pub release_edge : Store → Store
release_edge s = record s { edge = s.edge - 1; disposed = s.disposed || (s.edge == 1) }

-- chamge_edge_backend_dispose.
pub backend_dispose : Store → Store
unfolding release_edge
backend_dispose s = if s.backend_edge then release_edge (record s { backend_edge = false }) else s

-- g_clear_object of `priv->edge_backend`, in chamge_edge_delist and chamge_edge_dispose.
pub clear_edge_backend : Store → Store
unfolding backend_dispose
clear_edge_backend s =
    let s' : Store = record s { edge_backend = false; backend = s.backend - 1 } in
    if not s.edge_backend then s else if s.backend == 1 then backend_dispose s' else s'

-- chamge_edge_backend_set_property: g_value_dup_object takes a reference to the edge.
pub set_edge_property : Store → Store
set_edge_property s = record s { edge = s.edge + 1; backend_edge = true }

-- `g_object_get (self, "edge", &edge, NULL)`: it takes a reference, which no caller releases.
pub look_up_edge : Store → Store
look_up_edge s = record s { edge = s.edge + 1 }

-- A method of the backend that looks up its edge if it is one of AMQP.
pub method_references : Bool → Store → Store
unfolding look_up_edge
method_references amqp s = if amqp && s.edge_backend then look_up_edge s else s

-- chamge_edge_enroll, with chamge_edge_backend_new and the method of the backend.
pub enroll_references : Bool → Store → Store
unfolding set_edge_property method_references
enroll_references amqp s =
    if s.edge_backend
    then method_references amqp s
    else method_references amqp
        (set_edge_property (record s { edge_backend = true; backend = s.backend + 1 }))

-- chamge_edge_delist.
pub delist_references : Bool → Store → Store
unfolding clear_edge_backend method_references
delist_references amqp s = clear_edge_backend (method_references amqp s)

-- A user of the edge takes a reference, or releases one: chamge_edge_dispose follows at 0.
pub ref_edge : Store → Store
ref_edge s = record s { edge = s.edge + 1 }

pub unref_edge : Store → Store
unfolding clear_edge_backend
unref_edge s =
    let s' : Store = record s { edge = s.edge - 1 } in
    if s.edge == 1 then clear_edge_backend (record s' { disposed = true }) else s'

abbrev to_number : Bool → ℕ
to_number true = 1
to_number false = 0

module _ (amqp : Bool) where
  -- The histories of an edge, of the given kind, whose users hold `users` references, and whose
  -- backends have looked it up `lookups` times: to handle a user command, and, if they are of AMQP,
  -- in their methods `enroll`, `delist` and `activate`. Only who holds a reference releases one or
  -- calls the edge.
  pub data Held : ℕ → ℕ → Store → Type 0 where
    makes : Held 1 0 made_edge
    refs :
        {users lookups : ℕ} {s : Store}
        → Held (suc users) lookups s
        → Held (suc (suc users)) lookups (ref_edge s)
    unrefs :
        {users lookups : ℕ} {s : Store}
        → Held (suc users) lookups s
        → Held users lookups (unref_edge s)
    enrolls :
        {users lookups : ℕ} {s : Store}
        → Held (suc users) lookups s
        → Held (suc users) (to_number amqp + lookups) (enroll_references amqp s)
    delists :
        {users lookups : ℕ} {s : Store}
        → Held (suc users) lookups s
        → Held (suc users) (to_number (amqp && s.edge_backend) + lookups) (delist_references amqp s)
    activates :
        {users lookups : ℕ} {s : Store}
        → Held (suc users) lookups s
        → Held (suc users) (to_number (amqp && s.edge_backend) + lookups) (method_references amqp s)
    handles :
        {users lookups : ℕ} {s : Store}
        → Held users lookups s
        → s.edge_backend ≡ true
        → Held users (suc lookups) (look_up_edge s)

-- Each reference to the edge has its holder.
abbrev IsCounted : ℕ → ℕ → Store → Type 0
IsCounted users lookups s =
    (s.edge ≡ users + (to_number s.edge_backend + lookups))
    × (s.backend ≡ to_number s.edge_backend)
    × (s.backend_edge ≡ s.edge_backend)
    × (s.disposed ≡ (s.edge == 0))

clear-IsCounted :
    (users lookups : ℕ) (s : Store)
    → IsCounted (suc users) lookups s
    → IsCounted (suc users) lookups (clear_edge_backend s)
unfolding clear_edge_backend backend_dispose release_edge
clear-IsCounted users lookups s h = elim (Bool-cases s.edge_backend) [
  | inl there ↦ ground arith
  | inr gone ↦ ground arith
]

method-IsCounted :
    (amqp : Bool) (users lookups : ℕ) (s : Store)
    → IsCounted (suc users) lookups s
    → IsCounted
        (suc users)
        (to_number (amqp && s.edge_backend) + lookups)
        (method_references amqp s)
unfolding method_references look_up_edge
method-IsCounted amqp users lookups s h = elim (Bool-cases s.edge_backend) [
  | inl there ↦ elim (Bool-cases amqp) [ inl speaks ↦ ground arith | inr mocks ↦ ground arith ]
  | inr gone ↦ elim (Bool-cases amqp) [ inl speaks ↦ ground arith | inr mocks ↦ ground arith ]
]

enroll-IsCounted :
    (amqp : Bool) (users lookups : ℕ) (s : Store)
    → IsCounted (suc users) lookups s
    → IsCounted (suc users) (to_number amqp + lookups) (enroll_references amqp s)
unfolding enroll_references set_edge_property method_references look_up_edge
enroll-IsCounted amqp users lookups s h = elim (Bool-cases s.edge_backend) [
  | inl there ↦ elim (Bool-cases amqp) [ inl speaks ↦ ground arith | inr mocks ↦ ground arith ]
  | inr gone ↦ elim (Bool-cases amqp) [ inl speaks ↦ ground arith | inr mocks ↦ ground arith ]
]

unref-IsCounted :
    (users lookups : ℕ) (s : Store)
    → IsCounted (suc users) lookups s
    → IsCounted users lookups (unref_edge s)
unfolding unref_edge clear_edge_backend
unref-IsCounted users lookups s h = elim (Bool-cases s.edge_backend) [
  | inl there ↦ ground arith
  | inr gone ↦ ground arith
]

module _ {amqp : Bool} where
  Held-IsCounted :
      {users lookups : ℕ} {s : Store} → Held amqp users lookups s → IsCounted users lookups s
  unfolding made_edge ref_edge look_up_edge delist_references
  Held-IsCounted makes = (refl, refl, refl, refl)
  Held-IsCounted (refs {users} {lookups} {s} before) =
      let counted = Held-IsCounted before in ground arith
  Held-IsCounted (unrefs {users} {lookups} {s} before) =
      unref-IsCounted users lookups s (Held-IsCounted before)
  Held-IsCounted (enrolls {users} {lookups} {s} before) =
      enroll-IsCounted amqp users lookups s (Held-IsCounted before)
  Held-IsCounted (delists {users} {lookups} {s} before) =
      clear-IsCounted users (to_number (amqp && s.edge_backend) + lookups)
        (method_references amqp s) (method-IsCounted amqp users lookups s (Held-IsCounted before))
  Held-IsCounted (activates {users} {lookups} {s} before) =
      method-IsCounted amqp users lookups s (Held-IsCounted before)
  Held-IsCounted (handles {users} {lookups} {s} before has) =
      let counted = Held-IsCounted before in ground arith

  -- In every history, an edge is disposed of exactly when its users have released all their
  -- references, it has no backend, and no backend has ever looked it up; so an edge that is
  -- enrolled is not disposed of, nor one that has tried to enrol by AMQP or has handled a user
  -- command.
  pub Held-disposed :
      {users lookups : ℕ} {s : Store}
      → Held amqp users lookups s
      → (s.disposed ≡ true) ↔ ((users ≡ 0) × (lookups ≡ 0) × (s.edge_backend ≡ false))
  Held-disposed {users} {lookups} {s} held =
      let counted = Held-IsCounted held in
      elim (Bool-cases s.edge_backend) [ inl there ↦ ground arith | inr gone ↦ ground arith ]
