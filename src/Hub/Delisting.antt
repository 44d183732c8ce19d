-- ===== src/Hub/Delisting.antt =====
-- The delisting of a hub over AMQP, from the call of the node to the broker (chamge/node.c,
-- chamge/hub.c, chamge/hub-backend.c, chamge/amqp-hub-backend.c).
pub mod Tests
use chamge.Prelude.{
  ◌≡◌, refl, ap, sym, ◌∙◌, Option, none, some, List, ◌∷◌, Text, codes, Run, ret, stop, arith,
  Run-cases, inl, inr,
}
use chamge.Types.{Return, ok, null}
use chamge.Glib.{Glib}
use chamge.Amqp.{
  Rabbit, Net, Event, ConnectionInfo, opens, logs_in, opens_channel, closes_channel,
  closes_connection, destroys,
}
use chamge.Backend.{Config, Object, dispose, remove_source}
use chamge.Backend.Asked.{IsAsked}
use chamge.Backend.Hub
use chamge.Backend.Hub.{request_body}
use chamge.Backend.Hub.Enrolment.{IsOwn, hub_delist-IsAsked}
use chamge.Node.{Node, Handler}
use chamge.Node.Calls.{delists, call}
use chamge.Node.Rule.{IsPassive, method_runs}
use chamge.Node.Rule.Ran.{delists-ran}
use chamge.Hub.{
  HubData, HubBackend, mock_backend, amqp_backend, clear_backend, implementation_delist, hub_delist,
  hub_class,
}

module _ (g : Glib) (r : Rabbit) (cfg : Config) where
  -- What a delisting that returns CHAMGE_RETURN_OK has done.
  abbrev pub IsDelisting : Option Text → Net r → Net r → Type 0
  IsDelisting uid s t =
      (name : Text) × (uid ≡ some name)
      × (info : ConnectionInfo) × (r.parse_url cfg.amqp_uri ≡ some info)
      × IsOwn g r cfg name info s t
      × (l : List Event) × IsAsked g r cfg (request_body (codes "delist") name) (codes "delisted")
          (opens_channel ∷ logs_in ∷ opens ∷ s.log) l
      × (t.log ≡ destroys ∷ closes_connection ∷ closes_channel ∷ l)

  backend_delist-IsDelisting :
      (uid : Option Text) (o : Object r) (s t : Net r)
      → Hub.delist g r cfg uid o s ≡ ret (ok, t)
      → IsDelisting uid s t
  unfolding Hub.delist
  backend_delist-IsDelisting none o s t h = absurd (ground arith)
  backend_delist-IsDelisting (some name) o s t h =
      let (info, parsed, own, l, asked, closed) = hub_delist-IsAsked g r cfg name o s t h in
      (name, refl, info, parsed, own, l, asked, closed)

  dispose-log : (o : Object r) (s : Net r) → (dispose r o s).log ≡ destroys ∷ s.log
  unfolding dispose remove_source
  dispose-log o s = ground arith

  hub_delist-IsDelisting :
      (uid : Option Text) (d e : HubData r) (b : HubBackend r) (o : Object r)
      → d.hub_backend ≡ some b
      → b.implementation ≡ amqp_backend o
      → hub_delist g r cfg uid d ≡ ret (ok, e)
      → (e.hub_backend ≡ none)
        × (t : Net r) × (e.net ≡ dispose r o t)
        × (e.net.log ≡ destroys ∷ t.log)
        × IsDelisting uid d.net t
  unfolding hub_delist implementation_delist clear_backend
  hub_delist-IsDelisting uid d e b o has is h = elim (Run-cases (Hub.delist g r cfg uid o d.net)) [
    | inr (f, stopped) ↦ absurd (ground arith)
    | inl ((x, t), ran) ↦
        let fine : x ≡ ok = ground arith in
        let known = dispose-log o t in
        (
          ground arith,
          t,
          ground arith,
          ground arith,
          backend_delist-IsDelisting uid o d.net t (ran ∙ ap (λ y. ret (y, t)) fine),
        )
  ]

  -- Let a hub have a backend of AMQP, and the handlers of "state-changed" change neither its state
  -- nor its data. A call of chamge_node_delist that returns CHAMGE_RETURN_OK leaves it in the state
  -- NULL and without a backend. The hub had a uid, and the configured URI could be read. The
  -- backend made a new connection, on which it logged in, sent the request to delist with that uid,
  -- once, and took at most 11 messages, of which one that passes the test of the correlation id
  -- holds an answer that is accepted for "delisted"; it closed the channel and that connection and
  -- destroyed it; and then the backend was disposed of, with its own connection, and nothing else
  -- was sent.
  pub delists-IsDelisting :
      (h : Handler (HubData r)) (n m : Node (HubData r)) (b : HubBackend r) (o : Object r)
      → IsPassive h
      → n.self.hub_backend ≡ some b
      → b.implementation ≡ amqp_backend o
      → call g (hub_class g r cfg) h delists n ≡ ret (ok, m)
      → (m.state ≡ null)
        × (m.self.hub_backend ≡ none)
        × (t : Net r) × (m.self.net ≡ dispose r o t)
        × (m.self.net.log ≡ destroys ∷ t.log)
        × IsDelisting n.uid n.self.net t
  unfolding hub_class
  delists-IsDelisting h n m b o passive has is e =
      let (f, found, ran, reached) = delists-ran g (hub_class g r cfg) h passive n m e in
      let (dropped, t, disposed, closed, done) =
        hub_delist-IsDelisting n.uid n.self m.self b o has is
          (method_runs (hub_delist g r cfg) f n.uid n.self (ret (ok, m.self)) found ran) in
      (reached, dropped, t, disposed, closed, done)
