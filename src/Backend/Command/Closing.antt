-- ===== src/Backend/Command/Closing.antt =====
-- A user command over a connection of its own: what a success says (`user_command` of
-- chamge/amqp-arbiter-backend.c and chamge/amqp-hub-backend.c).
use chamge.Prelude.{
  ℕ, ◌≡◌, ◌≢◌, refl, Option, none, some, ◌∷◌, Run, ret, stop, arith, Run-cases, inl, inr,
}
use chamge.Types.{ok}
use chamge.Node.{Reply}
use chamge.Glib.{Glib}
use chamge.Amqp.{
  Rabbit, Net, M, Outcome, done, failed, closes_channel, closes_connection, destroys, ◌>>=◌,
}
use chamge.Rpc.{Answer}
use chamge.Backend.{Config}
use chamge.Backend.Command.{
  close_failed, close, connect, failure, finish, connected, outcome_reply, over_own_connection,
}

module _ (g : Glib) (r : Rabbit) (cfg : Config) where
  close-ok :
      (conn : r.Connection) (channel : ℕ) (q p : Reply) (s t : Net r)
      → close g r conn channel q s ≡ ret (done p, t)
      → p.result ≡ ok
      → (q ≡ p) × (t.log ≡ destroys ∷ closes_connection ∷ closes_channel ∷ s.log)
  unfolding close close_failed ◌>>=◌
  close-ok conn channel q p s t h e = ground arith

  close-not-failed :
      (conn : r.Connection) (channel : ℕ) (q : Reply) (s t : Net r) (e : Option _)
      → close g r conn channel q s ≢ ret (failed e, t)
  unfolding close ◌>>=◌
  close-not-failed conn channel q s t e h = ground arith

  finish-ok :
      (conn : r.Connection) (m : Run (Outcome Answer × Net r)) (o : Outcome Reply) (t : Net r)
      → finish g r cfg conn m ≡ ret (o, t)
      → (outcome_reply g r o).result ≡ ok
      → (a : Answer) × (v : Net r) × (m ≡ ret (done a, v))
        × ((outcome_reply g r o).out ≡ a.body)
        × ((outcome_reply g r o).error ≡ a.error)
        × (close g r conn cfg.amqp_channel (record { result = ok; out = a.body; error = a.error }) v
            ≡ ret (o, t))
        × (t.log ≡ destroys ∷ closes_connection ∷ closes_channel ∷ v.log)
  unfolding finish outcome_reply failure
  finish-ok conn (stop f) o t h e = absurd (ground arith)
  finish-ok conn (ret (failed (some x), v)) o t h e = absurd (ground arith)
  finish-ok conn (ret (failed none, v)) (failed x) t h e = absurd (ground arith)
  finish-ok conn (ret (failed none, v)) (done p) t h e =
      absurd (ground (arith, close-ok conn cfg.amqp_channel (failure g r none) p v t h e))
  finish-ok conn (ret (done a, v)) (failed x) t h e = absurd (ground arith)
  finish-ok conn (ret (done a, v)) (done p) t h e =
      let (same, log) =
        close-ok conn cfg.amqp_channel (record { result = ok; out = a.body; error = a.error }) p v t
          h e in
      (a, v, refl, ground arith, ground arith, h, log)

  connected-ok :
      (rpc : r.Connection → M r Answer) (m : Run (Outcome r.Connection × Net r)) (o : Outcome Reply)
      (t : Net r)
      → connected g r cfg rpc m ≡ ret (o, t)
      → (outcome_reply g r o).result ≡ ok
      → (conn : r.Connection) × (u : Net r) × (m ≡ ret (done conn, u))
        × (finish g r cfg conn (rpc conn u) ≡ ret (o, t))
  unfolding connected outcome_reply failure
  connected-ok rpc (stop f) o t h e = absurd (ground arith)
  connected-ok rpc (ret (failed x, u)) o t h e = absurd (ground arith)
  connected-ok rpc (ret (done conn, u)) o t h e = (conn, u, refl, h)

  closed_as :
      {m : Run (Outcome Reply × Net r)} (o : Outcome Reply) (p : Reply) (w t : Net r)
      → m ≡ ret (o, w)
      → p ≡ outcome_reply g r o
      → w ≡ t
      → (outcome_reply g r o).result ≡ ok
      → m ≡ ret (done p, t)
  unfolding outcome_reply failure
  closed_as (done q) p w t h e same fine = ground arith
  closed_as (failed x) p w t h e same fine = absurd (ground arith)

  -- A command that returns CHAMGE_RETURN_OK connected, its remote call returned CHAMGE_RETURN_OK on
  -- that connection, the reply is what the call left, and afterwards the channel and this
  -- connection were closed and the connection destroyed, in this order, and nothing else was sent.
  pub over_own_connection-ok :
      (rpc : r.Connection → M r Answer) (s t : Net r) (p : Reply)
      → over_own_connection g r cfg rpc s ≡ ret (p, t)
      → p.result ≡ ok
      → (conn : r.Connection) × (u v : Net r) × (a : Answer) × (connect g r cfg s
          ≡ ret (done conn, u))
        × (rpc conn u ≡ ret (done a, v))
        × (p.out ≡ a.body)
        × (p.error ≡ a.error)
        × (close g r conn cfg.amqp_channel (record { result = ok; out = a.body; error = a.error }) v
            ≡ ret (done p, t))
        × (t.log ≡ destroys ∷ closes_connection ∷ closes_channel ∷ v.log)
  unfolding over_own_connection
  over_own_connection-ok rpc s t p h e =
      elim (Run-cases (connected g r cfg rpc (connect g r cfg s))) [
        | inr (f, stopped) ↦ absurd (ground arith)
        | inl ((o, w), ran) ↦
            let same : (p ≡ outcome_reply g r o) × (w ≡ t) = ground arith in
            let fine : (outcome_reply g r o).result ≡ ok = ground arith in
            let (conn, u, made, rest) = connected-ok rpc (connect g r cfg s) o w ran fine in
            let (a, v, called, out, error, closed, log) =
              finish-ok conn (rpc conn u) o w rest fine in
            (
              conn,
              u,
              v,
              a,
              made,
              called,
              ground arith,
              ground arith,
              closed_as o p w t closed same.0 same.1 fine,
              ground arith,
            )
      ]
