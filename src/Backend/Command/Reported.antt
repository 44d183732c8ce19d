-- ===== src/Backend/Command/Reported.antt =====
-- A user command of the arbiter that is reported as a success (`user_command` of
-- chamge/amqp-arbiter-backend.c).
use chamge.Prelude.{
  ℕ, ◌<◌, ◌≡◌, ◌∙◌, ap, true, false, some, inl, inr, Option-cases, [], ◌∷◌, Text, ret, arith,
}
use chamge.Types.{ok}
use chamge.Node.{Reply}
use chamge.Glib.{Glib}
use chamge.Amqp.{
  Rabbit, Net, done, opens, logs_in, opens_channel, closes_channel, closes_connection, destroys,
  declares, listens, publishes, ◌>>=◌,
}
use chamge.Rpc.{Answer, request_properties}
use chamge.Rpc.Await.{IsAnswer, receives_more}
use chamge.Backend.{Config}
use chamge.Backend.Command.{
  guard_reply, to_option, connect, close, get_queue_name, handle_rpc_user_command, user_command,
}
use chamge.Backend.Command.Closing.{over_own_connection-ok}
use chamge.Backend.Command.Trace.{handle_rpc_user_command-done}

module _ (g : Glib) (r : Rabbit) (cfg : Config) where
  connect-done :
      (s u : Net r) (conn : r.Connection)
      → connect g r cfg s ≡ ret (done conn, u)
      → u.log ≡ opens_channel ∷ logs_in ∷ opens ∷ s.log
  unfolding connect guard_reply to_option ◌>>=◌
  connect-done s u conn h = ground arith

  connect-new :
      (s u : Net r) (conn : r.Connection)
      → connect g r cfg s ≡ ret (done conn, u)
      → (w : r.World) × (r.new_connection s.world ≡ (some conn, w))
  unfolding connect guard_reply to_option ◌>>=◌
  connect-new s u conn h =
      let w = (r.new_connection s.world).1 in
      elim (Option-cases (r.new_connection s.world).0) [
        | inl without ↦ absurd (ground arith)
        | inr (c, made) ↦ let same : c ≡ conn = ground arith in (w, ground (arith, made, same))
      ]

  -- The connection of a command: a new one, on which it is opened, called and closed.
  abbrev pub IsOwn : ℕ → Text → Net r → Net r → Reply → Answer → Type 0
  IsOwn fuel cmd s t p a =
      (conn : r.Connection) × (w : r.World) × (u v : Net r) × (r.new_connection s.world
        ≡ (some conn, w))
      × (connect g r cfg s ≡ ret (done conn, u))
      × (handle_rpc_user_command g r fuel conn cfg.amqp_channel cmd (some cfg.enroll_exchange_name)
            u
          ≡ ret (done a, v))
      × (close g r conn cfg.amqp_channel (record { result = ok; out = a.body; error = a.error }) v
          ≡ ret (done p, t))

  -- A user command that is reported as CHAMGE_RETURN_OK is a document that names a queue in its
  -- member "to". A connection that was new was opened for it; the remote call ran on this
  -- connection, and then this one was closed and destroyed. Over it, it was asked whether the queue
  -- exists, a reply queue was declared, the command was published once to the queue, by the
  -- exchange of the settings, asking for the answer in the reply queue, and at least one message
  -- was taken; nothing else was sent but the opening and the closing. The text and the error that
  -- are reported are those of the answer: either no text and an error, or the body of an envelope
  -- that the broker handed over and the test of the correlation id accepts, and no error.
  pub user_command-ok :
      (fuel : ℕ) (cmd : Text) (s t : Net r) (p : Reply)
      → user_command g r fuel cfg cmd s ≡ ret (p, t)
      → p.result ≡ ok
      → (queue reply_queue uuid : Text) × (n : ℕ) × (a : Answer) × (get_queue_name g r cmd
          ≡ some queue)
        × IsOwn fuel cmd s t p a
        × (t.log
            ≡ destroys
              ∷ closes_connection
              ∷ closes_channel
              ∷ receives_more n (
                  listens reply_queue
                  ∷ publishes cfg.enroll_exchange_name queue
                      (request_properties reply_queue (g.sha256_hex uuid))
                      cmd
                  ∷ declares false []
                  ∷ declares true queue
                  ∷ opens_channel
                  ∷ logs_in
                  ∷ opens
                  ∷ s.log))
        × (0 < n)
        × (p.out ≡ a.body)
        × (p.error ≡ a.error)
        × IsAnswer r (g.sha256_hex uuid) a
  unfolding user_command
  user_command-ok fuel cmd s t p h fine =
      let (conn, u, v, a, connected, ran, out, error, closed, log) =
        over_own_connection-ok g r cfg
          (λ conn.
            handle_rpc_user_command g r fuel conn cfg.amqp_channel cmd
              (some cfg.enroll_exchange_name))
          s t p h fine in
      let (queue, reply_queue, uuid, n, channel, named, sent, pos, i) =
        handle_rpc_user_command-done g r fuel conn cfg.amqp_channel cmd
          (some cfg.enroll_exchange_name) u v a ran in
      let before = connect-done s u conn connected in
      (
        queue,
        reply_queue,
        uuid,
        n,
        a,
        named,
        (let (w, new) = connect-new s u conn connected in
            (conn, w, u, v, new, connected, ran, closed)),
        log
            ∙ ap (λ m. destroys ∷ closes_connection ∷ closes_channel ∷ m)
                (sent
                  ∙ ap
                      (λ m. receives_more n (
                        listens reply_queue
                        ∷ publishes cfg.enroll_exchange_name queue
                            (request_properties reply_queue (g.sha256_hex uuid)) cmd
                        ∷ declares false []
                        ∷ declares true queue
                        ∷ m))
                      before),
        pos,
        out,
        error,
        i,
      )
