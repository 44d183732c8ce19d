-- ===== src/Rpc/Trace.antt =====
-- What the remote calls of chamge/amqp-edge-backend.c have sent to the broker when they return.
use chamge.Prelude.{
  ℕ, ◌≤◌, ◌<◌, ◌≡◌, ◌≢◌, Bool, true, false, Option, none, some, [], ◌∷◌, Text, String, ret, arith,
  ◌∙◌, ap,
}
use chamge.Glib.{Glib}
use chamge.Amqp.{Rabbit, Net, done, declares, listens, publishes, Properties, ◌>>=◌}
use chamge.Amqp.Runs.{
  >>=-done, require-done, send-log, ask-log, guard-done, pure-done, log-eq, ◌after◌,
}
use chamge.Rpc.{
  Answer, fail_with_reply, guard_reply, require_reply, declare_queue, is_queue_existed,
  request_properties, or_empty, publish, listen, rpc_request,
}
use chamge.Rpc.Await.{IsAnswer, receives_more, await-done}

module _ (g : Glib) (r : Rabbit) where
  fail_with_reply-not-done :
      {A : Type 0} (conn : r.Connection) (text : String) (s t : Net r) (a : A)
      → fail_with_reply g r conn text s ≢ ret (done a, t)
  unfolding fail_with_reply ◌>>=◌
  fail_with_reply-not-done conn text s t a h = ground arith

  pub guard_reply-done :
      (conn : r.Connection) (b : Bool) (text : String) (s t : Net r) (x : Unit {0})
      → guard_reply g r conn b text s ≡ ret (done x, t)
      → (b ≡ true) × (s ≡ t)
  unfolding guard_reply ◌>>=◌
  guard_reply-done conn true text s t x h = ground arith
  guard_reply-done conn false text s t x h = absurd (fail_with_reply-not-done conn text s t x h)

  require_reply-done :
      {A : Type 0} (conn : r.Connection) (o : Option A) (text : String) (s t : Net r) (a : A)
      → require_reply g r conn o text s ≡ ret (done a, t)
      → (o ≡ some a) × (s ≡ t)
  unfolding require_reply ◌>>=◌
  require_reply-done conn (some b) text s t a h = ground arith
  require_reply-done conn none text s t a h = absurd (fail_with_reply-not-done conn text s t a h)

  pub declare_queue-done :
      (conn : r.Connection) (channel : ℕ) (name : Option Text) (s t : Net r) (q : Text)
      → declare_queue g r conn channel name s ≡ ret (done q, t)
      → t.log ≡ declares false (or_empty name) ∷ s.log
  unfolding declare_queue
  declare_queue-done conn channel name s t q h =
      let (o, u, sent, rest) = >>=-done _ _ s t q h in
      let (_, same) = require_reply-done conn o _ u t q rest in
      log-eq _ _ same ∙ send-log _ _ s u o sent

  is_queue_existed-done :
      (conn : r.Connection) (channel : ℕ) (name : Text) (s t : Net r) (x : Unit {0})
      → is_queue_existed g r conn channel (some name) s ≡ ret (done x, t)
      → t.log ≡ declares true name ∷ s.log
  unfolding is_queue_existed
  is_queue_existed-done conn channel name s t x h =
      let (o, u, sent, rest) = >>=-done _ _ s t x h in
      let (found, v, required, last) = >>=-done _ _ u t x rest in
      let (_, same) = require_reply-done conn o _ u v found required in
      let (_, same') = pure-done _ _ v t last in
      log-eq _ _ same' ∙ log-eq _ _ same ∙ send-log _ _ s u o sent

  publish-done :
      (conn : r.Connection) (channel : ℕ) (exchange queue : Text) (props : Properties) (body : Text)
      (s t : Net r) (x : Unit {0})
      → publish g r conn channel exchange queue props body s ≡ ret (done x, t)
      → t.log ≡ publishes exchange queue props body ∷ s.log
  unfolding publish ◌>>=◌
  publish-done conn channel exchange queue props body s t x h = ground arith

  pub listen-done :
      (conn : r.Connection) (channel : ℕ) (queue : Text) (s t : Net r) (x : Unit {0})
      → listen g r conn channel queue s ≡ ret (done x, t)
      → t.log ≡ listens queue ∷ s.log
  unfolding listen
  listen-done conn channel queue s t x h =
      let (b, u, sent, rest) = >>=-done _ _ s t x h in
      let (_, same) = guard_reply-done conn b _ u t x rest in
      log-eq _ _ same ∙ send-log _ _ s u b sent

  -- A request that returns CHAMGE_RETURN_OK had a channel and a queue. It asked whether the queue
  -- exists, declared a reply queue of which the broker chose the name, published the request to
  -- the queue once, asking for the answer in the reply queue, listened there, and took at least 1
  -- and at most 11 messages, and nothing else. Then either it has no body and an error is set, or
  -- it has the body of an envelope that the broker handed over and the test of the correlation id
  -- accepts, and no error.
  pub rpc_request-done :
      (conn : r.Connection) (channel : ℕ) (request : Text) (exchange queue_name : Option Text)
      (s t : Net r) (a : Answer)
      → rpc_request g r conn channel request exchange queue_name s ≡ ret (done a, t)
      → (queue reply_queue cid : Text) × (n : ℕ) × (channel ≢ 0)
        × (queue_name ≡ some queue)
        × (t.log
            ≡ receives_more n (
                listens reply_queue
                ∷ publishes (or_empty exchange) queue (request_properties reply_queue cid) request
                ∷ declares false []
                ∷ declares true queue
                ∷ s.log))
        × (0 < n)
        × (n ≤ 11)
        × IsAnswer r cid a
  unfolding rpc_request
  rpc_request-done conn channel request exchange queue_name s t a h =
      let (x₁, s₁, h₁, k₁) = >>=-done _ _ s t a h in
      let (queue, s₂, h₂, k₂) = >>=-done _ _ s₁ t a k₁ in
      let (x₃, s₃, h₃, k₃) = >>=-done _ _ s₂ t a k₂ in
      let (reply_queue, s₄, h₄, k₄) = >>=-done _ _ s₃ t a k₃ in
      let (uuid, s₅, h₅, k₅) = >>=-done _ _ s₄ t a k₄ in
      let (x₆, s₆, h₆, k₆) = >>=-done _ _ s₅ t a k₅ in
      let (x₇, s₇, h₇, k₇) = >>=-done _ _ s₆ t a k₆ in
      let cid : Text = g.sha256_hex uuid in
      let (nonzero, e₁) = guard-done _ none s s₁ x₁ h₁ in
      let (named, e₂) = require-done queue_name none s₁ s₂ queue h₂ in
      let (n, l₈, pos, bound, i) = await-done g r conn cid s₇ t a k₇ in
      let l₃ = is_queue_existed-done conn channel queue s₂ s₃ x₃ h₃ in
      let l₄ = declare_queue-done conn channel none s₃ s₄ reply_queue h₄ in
      let l₅ = ask-log r.uuid_string_random s₄ s₅ uuid h₅ in
      let l₆ =
        publish-done conn channel (or_empty exchange) queue (request_properties reply_queue cid)
          request s₅ s₆ x₆ h₆ in
      let l₇ = listen-done conn channel reply_queue s₆ s₇ x₇ h₇ in
      let before : s₇.log
          ≡ listens reply_queue
            ∷ publishes (or_empty exchange) queue (request_properties reply_queue cid) request
            ∷ declares false []
            ∷ declares true queue
            ∷ s.log =
        l₇ after l₆ after l₅ ∙ l₄ after l₃ after log-eq s₁ s₂ e₂ ∙ log-eq s s₁ e₁ in
      (
        queue,
        reply_queue,
        cid,
        n,
        ground arith,
        named,
        l₈ ∙ ap (receives_more n) before,
        pos,
        bound,
        i,
      )
