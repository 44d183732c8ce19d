-- ===== src/Backend/Arbiter/Enrolment.antt =====
-- The enrolment of the arbiter never fails: it succeeds, or the process ends
-- (chamge_amqp_arbiter_backend_enroll of chamge/amqp-arbiter-backend.c).
use chamge.Prelude.{◌≡◌, some, ◌∷◌, Text, false, ret, arith, Run-cases, Option-cases, inl, inr}
use chamge.Types.{Return, ok}
use chamge.Glib.{Glib}
use chamge.Amqp.{
  Rabbit, Net, Outcome, done, ConnectionInfo, opens, logs_in, opens_channel, declares, binds,
  listens, pure, faults, ◌>>=◌,
}
use chamge.Backend.{Config, Object}
use chamge.Backend.Arbiter.{enroll_call, enroll, abort_unless}

module _ (g : Glib) (r : Rabbit) (cfg : Config) where
  enroll_call-done :
      (conn : r.Connection) (s t : Net r) (o : Outcome (Unit {0}))
      → enroll_call g r cfg conn s ≡ ret (o, t)
      → (info : ConnectionInfo) × (queue : Text) × (r.parse_url cfg.amqp_uri ≡ some info)
        × (o ≡ done tt)
        × (t.log
            ≡ listens queue
              ∷ binds cfg.enroll_exchange_name queue cfg.enroll_queue_name
              ∷ declares false cfg.enroll_queue_name
              ∷ opens_channel
              ∷ logs_in
              ∷ opens
              ∷ s.log)
  unfolding enroll_call abort_unless ◌>>=◌ pure faults
  enroll_call-done conn s t o h = elim (Option-cases (r.parse_url cfg.amqp_uri)) [
    | inl unread ↦ absurd (ground arith)
    | inr (info, read) ↦
        let w₁ = (r.socket_open conn info.host info.port s.world).1 in
        let w₂ = (r.login conn info w₁).1 in
        let w₃ = (r.channel_open conn cfg.amqp_channel w₂).1 in
        let w₄ = (r.get_rpc_reply conn w₃).1 in
        elim (Option-cases
          (r.queue_declare conn cfg.amqp_channel cfg.enroll_queue_name false w₄).0) [
            | inl undeclared ↦ absurd (ground arith)
            | inr (queue, declared) ↦ (info, queue, read, ground arith, ground arith)
          ]
  ]

  -- The enrolment of an arbiter that returns has returned CHAMGE_RETURN_OK: the configured URI
  -- could be read, and the arbiter opened the socket, logged in, opened the channel, declared its
  -- queue, bound it to the exchange under the configured name, and listens to it, in this order,
  -- and sent nothing else.
  pub enroll-ok :
      (o : Object r) (s t : Net r) (x : Return)
      → enroll g r cfg o s ≡ ret (x, t)
      → (info : ConnectionInfo) × (queue : Text) × (r.parse_url cfg.amqp_uri ≡ some info)
        × (x ≡ ok)
        × (t.log
            ≡ listens queue
              ∷ binds cfg.enroll_exchange_name queue cfg.enroll_queue_name
              ∷ declares false cfg.enroll_queue_name
              ∷ opens_channel
              ∷ logs_in
              ∷ opens
              ∷ s.log)
  unfolding enroll
  enroll-ok o s t x h = elim (Run-cases (enroll_call g r cfg o.amqp_conn s)) [
    | inr (f, stopped) ↦ absurd (ground arith)
    | inl ((y, u), ran) ↦
        let (info, queue, read, finished, log) = enroll_call-done o.amqp_conn s u y ran in
        (info, queue, read, ground arith, ground arith)
  ]
