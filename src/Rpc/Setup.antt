-- ===== src/Rpc/Setup.antt =====
-- What a login and a subscription have sent to the broker when they return (_amqp_rpc_login and
-- _amqp_rpc_subscribe of chamge/amqp-edge-backend.c).
use chamge.Prelude.{ℕ, ◌≡◌, ◌≢◌, ◌∙◌, false, none, some, ◌∷◌, Text, ret, arith}
use chamge.Glib.{Glib}
use chamge.Amqp.{
  Rabbit, Net, done, declares, binds, listens, opens, logs_in, opens_channel, ConnectionInfo,
}
use chamge.Amqp.Runs.{>>=-done, require-done, send-log, guard-done, log-eq, ◌after◌}
use chamge.Rpc.{rpc_login, rpc_subscribe}
use chamge.Rpc.Trace.{guard_reply-done, declare_queue-done, listen-done}

module _ (g : Glib) (r : Rabbit) where
  -- A login that returns CHAMGE_RETURN_OK had a channel and a URL that could be read; it opened the
  -- socket, logged in and opened the channel, in this order, and sent nothing else.
  pub rpc_login-done :
      (conn : r.Connection) (url : Text) (channel : ℕ) (s t : Net r) (x : Unit {0})
      → rpc_login g r conn url channel s ≡ ret (done x, t)
      → (info : ConnectionInfo) × (channel ≢ 0)
        × (r.parse_url url ≡ some info)
        × (t.log ≡ opens_channel ∷ logs_in ∷ opens ∷ s.log)
  unfolding rpc_login
  rpc_login-done conn url channel s t x h =
      let (x₁, s₁, h₁, k₁) = >>=-done _ _ s t x h in
      let (info, s₂, h₂, k₂) = >>=-done _ _ s₁ t x k₁ in
      let (opened, s₃, h₃, k₃) = >>=-done _ _ s₂ t x k₂ in
      let (x₄, s₄, h₄, k₄) = >>=-done _ _ s₃ t x k₃ in
      let (reply, s₅, h₅, k₅) = >>=-done _ _ s₄ t x k₄ in
      let (x₆, s₆, h₆, k₆) = >>=-done _ _ s₅ t x k₅ in
      let (ready, s₇, h₇, k₇) = >>=-done _ _ s₆ t x k₆ in
      let (nonzero, e₁) = guard-done _ none s s₁ x₁ h₁ in
      let (parsed, e₂) = require-done _ _ s₁ s₂ info h₂ in
      let l₃ = send-log _ _ s₂ s₃ opened h₃ in
      let (_, e₄) = guard-done _ _ s₃ s₄ x₄ h₄ in
      let l₅ = send-log _ _ s₄ s₅ reply h₅ in
      let (_, e₆) = guard-done _ _ s₅ s₆ x₆ h₆ in
      let l₇ = send-log _ _ s₆ s₇ ready h₇ in
      let (_, e₈) = guard_reply-done g r conn ready _ s₇ t x k₇ in
      (
        info,
        ground arith,
        parsed,
        log-eq s₇ t e₈
            ∙ (l₇
                after log-eq s₅ s₆ e₆
                  ∙ (l₅ after log-eq s₃ s₄ e₄ ∙ (l₃ after log-eq s₁ s₂ e₂ ∙ log-eq s s₁ e₁))),
      )

  -- A subscription that returns CHAMGE_RETURN_OK declared the queue, bound it to the exchange under
  -- its own name, and listens to it, in this order, and sent nothing else.
  pub rpc_subscribe-done :
      (conn : r.Connection) (channel : ℕ) (exchange queue : Text) (s t : Net r) (x : Unit {0})
      → rpc_subscribe g r conn channel exchange queue s ≡ ret (done x, t)
      → (channel ≢ 0)
        × (t.log ≡ listens queue ∷ binds exchange queue queue ∷ declares false queue ∷ s.log)
  unfolding rpc_subscribe
  rpc_subscribe-done conn channel exchange queue s t x h =
      let (x₁, s₁, h₁, k₁) = >>=-done _ _ s t x h in
      let (declared, s₂, h₂, k₂) = >>=-done _ _ s₁ t x k₁ in
      let (x₃, s₃, h₃, k₃) = >>=-done _ _ s₂ t x k₂ in
      let (bound, s₄, h₄, k₄) = >>=-done _ _ s₃ t x k₃ in
      let (x₅, s₅, h₅, k₅) = >>=-done _ _ s₄ t x k₄ in
      let (nonzero, e₁) = guard-done _ none s s₁ x₁ h₁ in
      let l₂ = declare_queue-done g r conn channel (some queue) s₁ s₂ declared h₂ in
      let (_, e₃) = guard-done _ _ s₂ s₃ x₃ h₃ in
      let l₄ = send-log _ _ s₃ s₄ bound h₄ in
      let (_, e₅) = guard_reply-done g r conn bound _ s₄ s₅ x₅ h₅ in
      let l₆ = listen-done g r conn channel queue s₅ t x k₅ in
      (
        ground arith,
        l₆ after log-eq s₄ s₅ e₅ ∙ (l₄ after log-eq s₂ s₃ e₃ ∙ (l₂ after log-eq s s₁ e₁)),
      )
