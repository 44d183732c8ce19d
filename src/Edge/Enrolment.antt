-- ===== src/Edge/Enrolment.antt =====
-- The enrolment of an edge over AMQP, from the call of the node to the broker (chamge/node.c,
-- chamge/edge.c, chamge/edge-backend.c, chamge/amqp-edge-backend.c).
pub mod Tests
use chamge.Prelude.{
  ◌≡◌, refl, ap, sym, ◌∙◌, Option, none, some, List, ◌∷◌, Text, codes, Run, ret, stop, arith, subst,
  Run-cases, Option-cases, inl, inr,
}
use chamge.Types.{Return, ok, fail, BackendKind, amqp, null, enrolled}
use chamge.Glib.{Glib}
use chamge.Amqp.{Rabbit, Net, Event, ConnectionInfo, opens, logs_in, opens_channel}
use chamge.Backend.{Config, Object, object_init}
use chamge.Backend.Asked.{IsAsked}
use chamge.Backend.Edge
use chamge.Backend.Edge.{request_body}
use chamge.Backend.Edge.Enrolment.{enroll-IsAsked}
use chamge.Node.{Node, Handler}
use chamge.Node.Calls.{enrolls, call}
use chamge.Node.Rule.{IsPassive, method_runs}
use chamge.Node.Rule.Ran.{enrolls-ran}
use chamge.Edge.{
  EdgeData, EdgeBackend, Implementation, mock_backend, amqp_backend, backend_new, ensure_backend,
  implementation_enroll, edge_enroll, edge_class,
}

module _ (g : Glib) (r : Rabbit) (cfg : Config) where
  -- The kind of the edge is AMQP, and so is its backend, if it has one.
  pub record IsAmqp (d : EdgeData r) : Type 0 where
    pub chosen : d.kind ≡ amqp
    pub speaking :
        (b : EdgeBackend r)
        → d.edge_backend ≡ some b
        → (o : Object r) × (b.implementation ≡ amqp_backend o)

  object_init-log : (s t : Net r) (o : Object r) → object_init r s ≡ ret (o, t) → t.log ≡ s.log
  unfolding object_init
  object_init-log s t o h = ground arith

  ensure_backend-amqp :
      (d : EdgeData r) (b : EdgeBackend r) (t : Net r)
      → IsAmqp d
      → ensure_backend g r cfg d ≡ ret (b, t)
      → (o : Object r) × (b.implementation ≡ amqp_backend o) × (t.log ≡ d.net.log)
  unfolding ensure_backend backend_new
  ensure_backend-amqp d b t w h = elim (Option-cases d.edge_backend) [
    | inr (c, has) ↦ let (o, is) = w.speaking c has in (o, ground arith, ground arith)
    | inl without ↦ elim (Run-cases (object_init r d.net)) [
      | inr (f, stopped) ↦ let kind = w.chosen in absurd (ground arith)
      | inl ((o, s), made) ↦
          let kind = w.chosen in (o, ground arith, ground (arith, object_init-log d.net s o made))
    ]
  ]

  -- What an enrolment that returns CHAMGE_RETURN_OK has done, from the log before to the log after.
  abbrev pub IsEnrolment : Option Text → List Event → List Event → Type 0
  IsEnrolment uid before later =
      (name : Text) × (uid ≡ some name)
      × (info : ConnectionInfo) × (r.parse_url cfg.amqp_uri ≡ some info)
      × IsAsked g r cfg (request_body (codes "enroll") name) (codes "enrolled")
          (opens_channel ∷ logs_in ∷ opens ∷ before) later

  backend_enroll-IsEnrolment :
      (uid : Option Text) (o : Object r) (s t : Net r)
      → Edge.enroll g r cfg uid o s ≡ ret (ok, t)
      → IsEnrolment uid s.log t.log
  unfolding Edge.enroll
  backend_enroll-IsEnrolment none o s t h = absurd (ground arith)
  backend_enroll-IsEnrolment (some name) o s t h =
      let (info, parsed, asked) = enroll-IsAsked g r cfg name o s t h in
      (name, refl, info, parsed, asked)

  edge_enroll-IsEnrolment :
      (uid : Option Text) (d e : EdgeData r)
      → IsAmqp d
      → edge_enroll g r cfg uid d ≡ ret (ok, e)
      → IsEnrolment uid d.net.log e.net.log
  unfolding edge_enroll implementation_enroll
  edge_enroll-IsEnrolment uid d e w h = elim (Run-cases (ensure_backend g r cfg d)) [
    | inr (f, stopped) ↦ absurd (ground arith)
    | inl ((b, s), made) ↦
        let (o, is, log) = ensure_backend-amqp d b s w made in
        let ran : Edge.enroll g r cfg uid o s ≡ ret (ok, e.net) = ground arith in
        subst (λ l. IsEnrolment uid l e.net.log) log (backend_enroll-IsEnrolment uid o s e.net ran)
  ]

  -- Let an edge be of AMQP, and the handlers of "state-changed" change neither its state nor its
  -- data. A call of chamge_node_enroll that returns CHAMGE_RETURN_OK found the edge in the state
  -- NULL, with a uid, and leaves it ENROLLED. The configured URI could be read; the backend opened
  -- the socket, logged in, opened the channel, sent the request to enrol with that uid, once, and
  -- took at most 11 messages, of which one that passes the test of the correlation id holds an
  -- answer that is accepted for "enrolled"; and it sent nothing else.
  pub enrolls-IsEnrolment :
      (h : Handler (EdgeData r)) (n m : Node (EdgeData r))
      → IsPassive h
      → IsAmqp n.self
      → call g (edge_class g r cfg) h enrolls n ≡ ret (ok, m)
      → (n.state ≡ null) × (m.state ≡ enrolled) × IsEnrolment n.uid n.self.net.log m.self.net.log
  unfolding edge_class
  enrolls-IsEnrolment h n m passive w e =
      let (at_null, f, has, ran, reached) = enrolls-ran g (edge_class g r cfg) h passive n m e in
      (
        at_null,
        reached,
        edge_enroll-IsEnrolment n.uid n.self m.self w
            (method_runs (edge_enroll g r cfg) f n.uid n.self (ret (ok, m.self)) has ran),
      )
