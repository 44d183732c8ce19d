-- ===== src/Edge/Watch.antt =====
-- The event source of an edge is attached only while it is activated (chamge/edge.c,
-- chamge/amqp-edge-backend.c).
use chamge.Prelude.{
  ℕ, ◌≡◌, ◌≢◌, ◌⊎◌, inl, inr, ap, ◌∙◌, Option, none, some, Text, ret, arith, Run-cases,
  Option-cases,
}
use chamge.Types.{Return, ok, BackendKind, NodeState, enrolled, activated}
use chamge.Glib.{Glib}
use chamge.Amqp.{Rabbit, Net}
use chamge.Backend.{Config, object_init, remove_source}
use chamge.Backend.Edge
use chamge.Backend.Edge.Activation.{activate-cases}
use chamge.Node.{Node, Handler}
use chamge.Node.Calls.{Reach}
use chamge.Node.Rule.{arrival, IsPassive, IsKept, method_runs, Reach_keeps}
use chamge.Edge.{
  EdgeData, EdgeBackend, Implementation, mock_backend, amqp_backend, backend_new, ensure_backend,
  clear_backend, implementation_activate, implementation_deactivate, edge_class, edge_enroll,
  edge_delist, edge_activate, edge_deactivate,
}

module _ (r : Rabbit) where
  abbrev source_of : Implementation r → ℕ
  source_of mock_backend = 0
  source_of (amqp_backend o) = o.process_id

  -- The id of the event source that the backend of an edge holds; 0 is none.
  abbrev pub watch : EdgeData r → ℕ
  watch d = elim d.edge_backend [ none ↦ 0 | some b ↦ source_of b.implementation ]

  abbrev pub IsWatched : NodeState → EdgeData r → Type 0
  IsWatched s d = s ≢ activated → watch d ≡ 0

module _ (g : Glib) (r : Rabbit) (cfg : Config) where
  backend_new-watch :
      (kind : BackendKind) (s t : Net r) (b : EdgeBackend r)
      → backend_new g r cfg kind s ≡ ret (b, t)
      → source_of r b.implementation ≡ 0
  unfolding backend_new object_init
  backend_new-watch kind s t b h = ground arith

  edge_enroll-watch :
      (uid : Option Text) (d e : EdgeData r) (x : Return)
      → edge_enroll g r cfg uid d ≡ ret (x, e)
      → watch r e ≡ watch r d
  unfolding edge_enroll ensure_backend
  edge_enroll-watch uid d e x h = elim (Option-cases d.edge_backend) [
    | inr (b, has) ↦ ground arith
    | inl without ↦ elim (Run-cases (backend_new g r cfg d.kind d.net)) [
      | inr (f, stopped) ↦ absurd (ground arith)
      | inl ((b, t), made) ↦ ground (arith, backend_new-watch d.kind d.net t b made)
    ]
  ]

  edge_delist-watch :
      (uid : Option Text) (d e : EdgeData r) (x : Return)
      → edge_delist g r cfg uid d ≡ ret (x, e)
      → watch r e ≡ 0
  unfolding edge_delist clear_backend
  edge_delist-watch uid d e x h = ground arith

  edge_deactivate-watch :
      (uid : Option Text) (d e : EdgeData r) (x : Return)
      → edge_deactivate g r cfg uid d ≡ ret (x, e)
      → watch r e ≡ 0
  unfolding edge_deactivate implementation_deactivate Edge.deactivate remove_source
  edge_deactivate-watch uid d e x h = ground arith

  implementation_activate-watch :
      (uid : Option Text) (i j : Implementation r) (s t : Net r) (x : Return)
      → implementation_activate g r cfg uid i s ≡ ret (x, j, t)
      → (x ≡ ok) ⊎ (source_of r j ≡ source_of r i)
  unfolding implementation_activate Edge.activate
  implementation_activate-watch uid mock_backend j s t x h = ground arith
  implementation_activate-watch none (amqp_backend o) j s t x h = absurd (ground arith)
  implementation_activate-watch (some uid) (amqp_backend o) j s t x h =
      elim (Run-cases (Edge.activate g r cfg (some uid) o s)) [
        | inr (f, stopped) ↦ absurd (ground arith)
        | inl ((y, o', u), ran) ↦ elim (activate-cases g r cfg uid o o' y s u ran) [
          | inl (bad, same) ↦ inr (ground arith)
          | inr (fine, flag, a, v, sent, valid, log) ↦ inl (ground arith)
        ]
      ]

  edge_activate-watch :
      (uid : Option Text) (d e : EdgeData r) (x : Return)
      → edge_activate g r cfg uid d ≡ ret (x, e)
      → (x ≡ ok) ⊎ (watch r e ≡ watch r d)
  unfolding edge_activate
  edge_activate-watch uid d e x h = elim (Option-cases d.edge_backend) [
    | inl without ↦ inr (ground arith)
    | inr (b, has) ↦ elim (Run-cases (implementation_activate g r cfg uid b.implementation d.net)) [
      | inr (f, stopped) ↦ absurd (ground arith)
      | inl ((y, j, t), ran) ↦
          ground (arith, implementation_activate-watch uid b.implementation j d.net t y ran)
    ]
  ]

  edge_class_IsKept : IsKept (edge_class g r cfg) (IsWatched r)
  unfolding edge_class
  edge_class_IsKept = record {
    enrolling = λ f uid d e x has ran p away.
        let same =
          edge_enroll-watch uid d e x
            (method_runs (edge_enroll g r cfg) f uid d (ret (x, e)) has ran) in
        same ∙ p (λ z. ground arith);
    delisting = λ f uid d e x from has ran p away.
        edge_delist-watch uid d e x
          (method_runs (edge_delist g r cfg) f uid d (ret (x, e)) has ran);
    activating = λ f uid d e x has ran p away.
        elim (edge_activate-watch uid d e x
          (method_runs (edge_activate g r cfg) f uid d (ret (x, e)) has ran)) [
            | inl fine ↦ absurd (away (ap (λ z. arrival z enrolled activated) fine))
            | inr same ↦ same ∙ p (λ z. ground arith)
          ];
    deactivating = λ f uid d e x has ran p away.
        edge_deactivate-watch uid d e x
          (method_runs (edge_deactivate g r cfg) f uid d (ret (x, e)) has ran);
  }

  -- In every history of calls and timers of an edge, if no handler of "state-changed" changes the
  -- state or the data of the edge, the backend holds the id of an event source only while the edge
  -- is ACTIVATED, if that was so before.
  pub IsWatched-only_activated :
      (h : Handler (EdgeData r)) {n m : Node (EdgeData r)}
      → IsPassive h
      → IsWatched r n.state n.self
      → Reach g (edge_class g r cfg) h n m
      → IsWatched r m.state m.self
  IsWatched-only_activated h passive p reach =
      Reach_keeps g (edge_class g r cfg) h passive (IsWatched r) edge_class_IsKept p reach
