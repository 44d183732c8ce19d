-- ===== src/Arbiter/Serving.antt =====
-- An arbiter answers messages only while it is activated, and keeps its backend as long as it is
-- enrolled (chamge/arbiter.c, chamge/arbiter-backend.c, chamge/amqp-arbiter-backend.c).
pub mod Kept
use chamge.Prelude.{
  ℕ, ◌≡◌, ◌≢◌, ◌∙◌, refl, sym, subst, Bool, true, false, ◌&&◌, Option, none, some, Text, ret, arith,
  Run-cases, Option-cases, inl, inr, is_some,
}
use chamge.Types.{
  Return, ok, fail, async, BackendKind, unknown, mock, amqp, NodeState, null, enrolled, activated,
}
use chamge.Glib.{Glib}
use chamge.Amqp.{Rabbit, Net}
use chamge.Backend.{Config, object_init, remove_source}
use chamge.Backend.Arbiter
use chamge.Backend.Arbiter.{Handlers}
use chamge.Node.{Node, Handler}
use chamge.Node.Calls.{Reach}
use chamge.Node.Rule.{arrival, IsPassive, IsKept, method_runs, Reach_keeps}
use chamge.Arbiter.{
  ArbiterData, ArbiterBackend, Implementation, mock_backend, amqp_backend, backend_new, backend_of,
  ensure_backend, clear_backend, implementation_enroll, implementation_activate,
  implementation_deactivate, with_implementation, arbiter_class, arbiter_enroll, arbiter_delist,
  arbiter_activate, arbiter_deactivate, set_edge_handler, set_hub_handler, backend_handlers,
  invoked, invoked_if_approved, approves,
}

abbrev pub is_amqp : BackendKind → Bool
is_amqp amqp = true
is_amqp _ = false

abbrev pub is_activated : NodeState → Bool
is_activated activated = true
is_activated _ = false

abbrev pub is_null : NodeState → Bool
is_null null = true
is_null _ = false

module _ (r : Rabbit) where
  -- Whether the backend takes messages: that of AMQP while its flag is set, the mock never.
  abbrev pub takes : Implementation r → Bool
  takes mock_backend = false
  takes (amqp_backend o) = o.activated

  abbrev pub speaks : Implementation r → Bool
  speaks mock_backend = false
  speaks (amqp_backend o) = true

  abbrev pub serves : ArbiterData r → Bool
  serves d = elim d.arbiter_backend [ none ↦ false | some b ↦ takes b.implementation ]

  abbrev pub connects : ArbiterBackend r → Bool
  connects b = b.edge_enrolled && (b.edge_delisted && (b.hub_enrolled && b.hub_delisted))

  -- What an arbiter of the given kind keeps.
  pub record IsServing (kind : BackendKind) (s : NodeState) (d : ArbiterData r) : Type 0 where
    pub kept : d.kind ≡ kind
    pub serving : serves d ≡ (is_activated s && is_amqp kind)
    pub has_backend : is_null s ≡ false → is_some d.arbiter_backend ≡ true
    pub speaking :
        (b : ArbiterBackend r)
        → d.arbiter_backend ≡ some b
        → (speaks b.implementation ≡ is_amqp kind) × (connects b ≡ true)

-- What of the events reaches the handlers of the signals: the mock backend has no method `approve`,
-- and drops the enrolment of an edge.
abbrev pub heard : {S : Type 0} → BackendKind → Handlers S → Handlers S
heard amqp signals = signals
heard _ signals = record signals { edge_enrolled = λ uid x. x }

module _ (r : Rabbit) {S : Type 0} (signals : Handlers S) where
  abbrev IsHeardBy : BackendKind → Option (ArbiterBackend r) → Type 0
  IsHeardBy kind none = Unit {0}
  IsHeardBy kind (some b) = backend_handlers r b signals ≡ heard kind signals

  -- The backend of the arbiter, if there is one, passes on what a backend of the kind does.
  abbrev pub IsHeard : BackendKind → ArbiterData r → Type 0
  IsHeard kind d = IsHeardBy kind d.arbiter_backend

  connects-heard :
      (kind : BackendKind) (b : ArbiterBackend r)
      → speaks r b.implementation ≡ is_amqp kind
      → connects r b ≡ true
      → backend_handlers r b signals ≡ heard kind signals
  unfolding backend_handlers invoked invoked_if_approved
  connects-heard kind b speaking set =
      let flags : (b.edge_enrolled ≡ true)
          × (b.edge_delisted ≡ true)
          × (b.hub_enrolled ≡ true)
          × (b.hub_delisted ≡ true) =
        ground arith in
      go kind b.implementation b.edge_enrolled b.edge_delisted b.hub_enrolled b.hub_delisted
        speaking flags.0 flags.1 flags.2 flags.3
    where
      go :
          (kind : BackendKind) (i : Implementation r) (ee ed he hd : Bool)
          → speaks r i ≡ is_amqp kind
          → ee ≡ true
          → ed ≡ true
          → he ≡ true
          → hd ≡ true
          → backend_handlers r
              (record {
                implementation = i;
                edge_enrolled = ee;
                edge_delisted = ed;
                edge_connection_requested = b.edge_connection_requested;
                hub_enrolled = he;
                hub_delisted = hd;
              })
              signals
            ≡ heard kind signals
      go amqp (amqp_backend o) true true true true h h1 h2 h3 h4 = refl
      go mock mock_backend true true true true h h1 h2 h3 h4 = refl
      go unknown mock_backend true true true true h h1 h2 h3 h4 = refl
      go k i ee ed he hd h h1 h2 h3 h4 = absurd (ground arith)

  pub IsServing-IsHeard :
      (kind : BackendKind) (s : NodeState) (d : ArbiterData r)
      → IsServing r kind s d
      → IsHeard kind d
  IsServing-IsHeard kind s d w = elim (Option-cases d.arbiter_backend) [
    | inl without ↦ subst (IsHeardBy kind) (sym without) tt
    | inr (b, has) ↦
        let fine = w.speaking b has in
        subst (IsHeardBy kind) (sym has) (connects-heard kind b fine.0 fine.1)
  ]

module _ (r : Rabbit) where
  pub backend_new-speaks :
      (kind : BackendKind) (s t : Net r) (b : ArbiterBackend r)
      → backend_new r kind s ≡ ret (b, t)
      → (speaks r b.implementation ≡ is_amqp kind) × (takes r b.implementation ≡ false)
  unfolding backend_new object_init backend_of
  backend_new-speaks unknown s t b h = ground arith
  backend_new-speaks mock s t b h = ground arith
  backend_new-speaks amqp s t b h = ground arith

  pub activates_with :
      (i : Implementation r) (s : Net r)
      → let (x, j, t) = implementation_activate r i s in
        (x ≡ ok) × (takes r j ≡ speaks r i) × (speaks r j ≡ speaks r i)
  unfolding implementation_activate Arbiter.activate
  activates_with mock_backend s = (refl, refl, refl)
  activates_with (amqp_backend o) s = (refl, refl, refl)

  pub deactivates_with :
      (i : Implementation r) (s : Net r)
      → let (x, j, t) = implementation_deactivate r i s in
        (x ≡ ok) × (takes r j ≡ false) × (speaks r j ≡ speaks r i)
  unfolding implementation_deactivate Arbiter.deactivate remove_source
  deactivates_with mock_backend s = (refl, refl, refl)
  deactivates_with (amqp_backend o) s = ground arith

  -- What is left to show where the arbiter has a backend.
  pub with_backend :
      (kind : BackendKind) (s : NodeState) (d : ArbiterData r) (b : ArbiterBackend r)
      → d.kind ≡ kind
      → d.arbiter_backend ≡ some b
      → takes r b.implementation ≡ (is_activated s && is_amqp kind)
      → speaks r b.implementation ≡ is_amqp kind
      → connects r b ≡ true
      → IsServing r kind s d
  with_backend kind s d b same has serves connected speaks = record {
    kept = same;
    serving = ground arith;
    has_backend = λ away. ground arith;
    speaking = λ c here. ground arith;
  }

  pub without_backend :
      (kind : BackendKind) (d : ArbiterData r)
      → d.kind ≡ kind
      → d.arbiter_backend ≡ none
      → IsServing r kind null d
  without_backend kind d same gone = record {
    kept = same;
    serving = ground arith;
    has_backend = λ away. absurd (ground arith);
    speaking = λ c here. absurd (ground arith);
  }
