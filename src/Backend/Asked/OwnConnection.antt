-- ===== src/Backend/Asked/OwnConnection.antt =====
-- A delisting over a connection of its own (chamge/amqp-edge-backend.c and
-- chamge/amqp-hub-backend.c have the same steps around the request).
use chamge.Prelude.{◌≡◌, refl, Run, ◌∙◌, Option, none, some, ◌∷◌, ret, aborted, arith}
use chamge.Glib.{Glib}
use chamge.Amqp.{
  Rabbit, Net, Outcome, done, ConnectionInfo, M, ask, send, pure, fails, faults, guard, require,
  ◌>>=◌, ◌>>◌, LibraryError, opens, logs_in, opens_channel, closes_channel, closes_connection,
  destroys,
}
use chamge.Amqp.Runs.{>>=-done, require-done, send-log, ask-log, guard-done, log-eq, ◌after◌}
use chamge.Rpc.{is_normal, guard_reply}
use chamge.Rpc.Trace.{guard_reply-done}
use chamge.Backend.{Config}

module _ (r : Rabbit) where
  destroyed :
      (status : Option LibraryError) (s t : Net r) (x : Unit {0})
      → (elim status as (λ _. M r (Unit {0})) [ none ↦ pure tt | some e ↦ fails none ]) s
        ≡ ret (done x, t)
      → s ≡ t
  unfolding pure fails
  destroyed none s t x h = ground arith
  destroyed (some e) s t x h = absurd (ground arith)

  -- The steps after the request.
  abbrev pub closing : Config → r.Connection → M r (Unit {0})
  closing cfg conn = do
    closed ← send r closes_channel (r.channel_close conn cfg.amqp_channel)
    guard (is_normal closed) none
    ended ← send r closes_connection (r.connection_close conn)
    guard (is_normal ended) none
    status ← send r destroys (r.destroy_connection conn)
    elim status [ none ↦ pure tt | some e ↦ fails none ]

  closing-done :
      (cfg : Config) (conn : r.Connection) (s t : Net r) (x : Unit {0})
      → closing cfg conn s ≡ ret (done x, t)
      → t.log ≡ destroys ∷ closes_connection ∷ closes_channel ∷ s.log
  closing-done cfg conn s t x h =
      let (closed, s₁, h₁, k₁) = >>=-done _ _ s t x h in
      let (x₂, s₂, h₂, k₂) = >>=-done _ _ s₁ t x k₁ in
      let (ended, s₃, h₃, k₃) = >>=-done _ _ s₂ t x k₂ in
      let (x₄, s₄, h₄, k₄) = >>=-done _ _ s₃ t x k₃ in
      let (status, s₅, h₅, k₅) = >>=-done _ _ s₄ t x k₄ in
      let l₁ = send-log _ _ s s₁ closed h₁ in
      let (_, e₂) = guard-done _ _ s₁ s₂ x₂ h₂ in
      let l₃ = send-log _ _ s₂ s₃ ended h₃ in
      let (_, e₄) = guard-done _ _ s₃ s₄ x₄ h₄ in
      let l₅ = send-log _ _ s₄ s₅ status h₅ in
      log-eq s₅ t (destroyed status s₅ t x k₅)
      ∙ (l₅ after log-eq s₃ s₄ e₄ ∙ (l₃ after log-eq s₁ s₂ e₂ ∙ l₁))

module _ {r : Rabbit} where
  -- A chain runs as its first step and the rest of it.
  runs :
      {A B : Type 0} (m : M r A) (k : A → M r B) {s u : Net r} {a : A} {q : Run (Outcome B × Net r)}
      → m s ≡ ret (done a, u)
      → k a u ≡ q
      → (m >>= k) s ≡ q
  unfolding ◌>>=◌
  runs m k {s} {u} {a} first rest = ground arith

module _ (g : Glib) (r : Rabbit) (cfg : Config) (request : r.Connection → M r (Unit {0})) where
  -- The steps on the new connection.
  abbrev pub on_connection : ConnectionInfo → r.Connection → M r (Unit {0})
  on_connection info conn = do
    opened ← send r opens (r.socket_open conn info.host info.port)
    guard opened none
    reply ← send r logs_in (r.login conn info)
    guard (is_normal reply) none
    channel_opened ← send r opens_channel (r.channel_open conn cfg.amqp_channel)
    guard_reply g r conn channel_opened "channel open failure >> "
    request conn
    closing r cfg conn

  -- The steps before the request.
  abbrev pub opening : ConnectionInfo → r.Connection → M r (Unit {0})
  opening info conn = do
    opened ← send r opens (r.socket_open conn info.host info.port)
    guard opened none
    reply ← send r logs_in (r.login conn info)
    guard (is_normal reply) none
    channel_opened ← send r opens_channel (r.channel_open conn cfg.amqp_channel)
    guard_reply g r conn channel_opened "channel open failure >> "

  -- What they have done if they return CHAMGE_RETURN_OK: the connection was opened, the request was
  -- sent over it, and it was closed.
  abbrev pub IsOver : ConnectionInfo → r.Connection → Net r → Net r → Type 0
  IsOver info conn s t =
      (u v : Net r) × (y : Unit {0}) × (opening info conn s ≡ ret (done tt, u))
      × (request conn u ≡ ret (done y, v))
      × (closing r cfg conn v ≡ ret (done tt, t))
      × (u.log ≡ opens_channel ∷ logs_in ∷ opens ∷ s.log)
      × (t.log ≡ destroys ∷ closes_connection ∷ closes_channel ∷ v.log)

  pub on_connection-done :
      (info : ConnectionInfo) (conn : r.Connection) (s t : Net r) (x : Unit {0})
      → on_connection info conn s ≡ ret (done x, t)
      → IsOver info conn s t
  on_connection-done info conn s t x h =
      let (opened, s₁, h₁, k₁) = >>=-done _ _ s t x h in
      let (x₂, s₂, h₂, k₂) = >>=-done _ _ s₁ t x k₁ in
      let (reply, s₃, h₃, k₃) = >>=-done _ _ s₂ t x k₂ in
      let (x₄, s₄, h₄, k₄) = >>=-done _ _ s₃ t x k₃ in
      let (ready, s₅, h₅, k₅) = >>=-done _ _ s₄ t x k₄ in
      let (x₆, s₆, h₆, k₆) = >>=-done _ _ s₅ t x k₅ in
      let (y, s₇, h₇, k₇) = >>=-done _ _ s₆ t x k₆ in
      let l₁ = send-log _ _ s s₁ opened h₁ in
      let (_, e₂) = guard-done _ _ s₁ s₂ x₂ h₂ in
      let l₃ = send-log _ _ s₂ s₃ reply h₃ in
      let (_, e₄) = guard-done _ _ s₃ s₄ x₄ h₄ in
      let l₅ = send-log _ _ s₄ s₅ ready h₅ in
      let (_, e₆) = guard_reply-done g r conn ready _ s₅ s₆ x₆ h₆ in
      (
        s₆,
        s₇,
        y,
        runs _ _ h₁ (runs _ _ h₂ (runs _ _ h₃ (runs _ _ h₄ (runs _ _ h₅ h₆)))),
        h₇,
        k₇,
        log-eq s₅ s₆ e₆ ∙ (l₅ after log-eq s₃ s₄ e₄ ∙ (l₃ after log-eq s₁ s₂ e₂ ∙ l₁)),
        closing-done r cfg conn s₇ t x k₇,
      )

  abbrev pub over_connection : M r (Unit {0})
  over_connection = do
    info ← require (r.parse_url cfg.amqp_uri) none
    created ← ask r r.new_connection
    elim created [ none ↦ faults aborted | some conn ↦ on_connection info conn ]

  created-done :
      (info : ConnectionInfo) (created : Option r.Connection) (s t : Net r) (x : Unit {0})
      → (elim created as (λ _. M r (Unit {0})) [
        | none ↦ faults aborted
        | some conn ↦ on_connection info conn
      ])
          s
        ≡ ret (done x, t)
      → (conn : r.Connection) × (created ≡ some conn) × IsOver info conn s t
  unfolding faults
  created-done info none s t x h = absurd (ground arith)
  created-done info (some conn) s t x h = (conn, refl, on_connection-done info conn s t x h)

  connection_made :
      (conn : r.Connection) (created : Option r.Connection) (s s₁ s₂ : Net r)
      → s ≡ s₁
      → ask r r.new_connection s₁ ≡ ret (done created, s₂)
      → created ≡ some conn
      → r.new_connection s.world ≡ (some conn, s₂.world)
  unfolding ask
  connection_made conn created s s₁ s₂ e h is = ground arith

  -- The new connection, and the state after it was made, which has the log of before.
  pub over_connection-done :
      (s t : Net r) (x : Unit {0})
      → over_connection s ≡ ret (done x, t)
      → (info : ConnectionInfo) × (conn : r.Connection) × (s' : Net r) × (r.parse_url cfg.amqp_uri
          ≡ some info)
        × (r.new_connection s.world ≡ (some conn, s'.world))
        × (s'.log ≡ s.log)
        × IsOver info conn s' t
  over_connection-done s t x h =
      let (info, s₁, h₁, k₁) = >>=-done _ _ s t x h in
      let (created, s₂, h₂, k₂) = >>=-done _ _ s₁ t x k₁ in
      let (parsed, e₁) = require-done _ _ s s₁ info h₁ in
      let l₂ = ask-log _ s₁ s₂ created h₂ in
      let (conn, is, over) = created-done info created s₂ t x k₂ in
      (
        info,
        conn,
        s₂,
        parsed,
        connection_made conn created s s₁ s₂ e₁ h₂ is,
        l₂ ∙ log-eq s s₁ e₁,
        over,
      )
