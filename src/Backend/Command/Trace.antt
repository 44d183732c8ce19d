-- ===== src/Backend/Command/Trace.antt =====
-- What a user command of the arbiter has sent when it returns (`_handle_rpc_user_command` of
-- chamge/amqp-arbiter-backend.c).
use chamge.Prelude.{
  ℕ, zero, suc, true, false, ◌<◌, ◌≡◌, refl, ◌≢◌, sym, subst, Option, none, some, [], ◌∷◌, Text,
  String, ret, arith, ◌∙◌, ap, Bool-cases, Option-cases, inl, inr,
}
use chamge.Glib.{Glib}
use chamge.Amqp.{
  LibraryError, Rabbit, Net, done, declares, listens, publishes, receives, Envelope, RpcReply,
  ◌>>=◌, faults, fails,
}
use chamge.Amqp.Runs.{
  >>=-done, require-done, send-log, ask-log, guard-done, pure-done, log-eq, ◌after◌,
}
use chamge.Rpc.{Answer, request_properties, or_empty, is_timeout, is_normal, answers}
use chamge.Rpc.Await.{Taken, taken, IsAnswer, gave_up, answered, receives_more, receives_more_snoc}
use chamge.Backend.Command.{
  guard_reply, is_queue_existed, received, await, get_queue_name, awaits_answer,
  handle_rpc_user_command,
}
use chamge.Backend.Command.Wait.{await_step, await_end}

module _ (g : Glib) (r : Rabbit) where
  command_received-IsAnswer :
      (cid : Text) (reply : RpcReply) (envelope : Envelope) (a : Answer)
      → Taken r envelope
      → received g r cid reply envelope ≡ some a
      → IsAnswer r cid a
  unfolding received
  command_received-IsAnswer cid reply envelope a t h = elim (Bool-cases (is_timeout reply)) [
    | inl late ↦ gave_up (ground arith) (ground arith)
    | inr _ ↦ elim (Bool-cases (is_normal reply)) [
      | inr odd ↦ gave_up (ground arith) (ground arith)
      | inl fine ↦ elim (Bool-cases (answers cid envelope)) [
        | inl hit ↦ answered envelope t hit (ground arith) (ground arith)
        | inr miss ↦ absurd (ground arith)
      ]
    ]
  ]

  command_await-done :
      (fuel : ℕ) (conn : r.Connection) (cid : Text) (s t : Net r) (a : Answer)
      → await g r fuel conn cid s ≡ ret (done a, t)
      → (n : ℕ) × (t.log ≡ receives_more n s.log) × (0 < n) × IsAnswer r cid a
  unfolding await faults
  command_await-done zero conn cid s t a h = absurd (ground arith)
  command_await-done (suc fuel) conn cid s t a h =
      let ((reply, envelope), w) = r.consume_message conn s.world in
      let s' : Net r = record { world = w; log = receives ∷ s.log } in
      elim (Option-cases (received g r cid reply envelope)) [
        | inl more ↦
            let (n, l, pos, i) =
              command_await-done fuel conn cid s' t a
                (sym (await_step g r conn cid fuel s more) ∙ h) in
            (suc n, l ∙ receives_more_snoc n s.log, omega arith, i)
        | inr (b, e) ↦
            let last = sym (await_end g r conn cid fuel s b e) ∙ h in
            let same : (b ≡ a) × (s' ≡ t) = ground arith in
            (
              1,
              log-eq s' t same.1,
              omega arith,
              subst (IsAnswer r cid) same.0 (
                  command_received-IsAnswer cid reply envelope b (taken conn s.world w reply refl)
                    e),
            )
      ]

  command_guard_reply-done :
      {A : Type 0} (conn : r.Connection) (o : Option A) (text : String) (s t : Net r) (a : A)
      → guard_reply g r conn o text s ≡ ret (done a, t)
      → (o ≡ some a) × (s ≡ t)
  unfolding guard_reply ◌>>=◌
  command_guard_reply-done conn (some b) text s t a h = ground arith
  command_guard_reply-done conn none text s t a h = absurd (ground arith)

  command_queue_existed-done :
      (conn : r.Connection) (channel : ℕ) (name : Text) (s t : Net r) (x : Unit {0})
      → is_queue_existed g r conn channel (some name) s ≡ ret (done x, t)
      → t.log ≡ declares true name ∷ s.log
  unfolding is_queue_existed
  command_queue_existed-done conn channel name s t x h =
      let (o, u, sent, rest) = >>=-done _ _ s t x h in
      let (found, v, required, last) = >>=-done _ _ u t x rest in
      let (_, same) = command_guard_reply-done conn o _ u v found required in
      let (_, same') = pure-done _ _ v t last in
      log-eq _ _ same' ∙ log-eq _ _ same ∙ send-log _ _ s u o sent

  -- From the publishing of the command to the answer.
  awaits_answer-done :
      (fuel : ℕ) (conn : r.Connection) (channel : ℕ) (reply_queue cid : Text)
      (status : Option LibraryError) (s t : Net r) (a : Answer)
      → awaits_answer g r fuel conn channel reply_queue cid status s ≡ ret (done a, t)
      → (n : ℕ) × (t.log ≡ receives_more n (listens reply_queue ∷ s.log))
        × (0 < n)
        × IsAnswer r cid a
  unfolding awaits_answer fails
  awaits_answer-done fuel conn channel reply_queue cid (some e) s t a h = absurd (ground arith)
  awaits_answer-done fuel conn channel reply_queue cid none s t a h =
      let (b, s₁, h₁, k₁) = >>=-done _ _ s t a h in
      let (x₂, s₂, h₂, k₂) = >>=-done _ _ s₁ t a k₁ in
      let (_, same) = command_guard_reply-done conn _ _ s₁ s₂ x₂ h₂ in
      let (n, l, pos, i) = command_await-done fuel conn cid s₂ t a k₂ in
      (n, l ∙ ap (receives_more n) (log-eq _ _ same ∙ send-log _ _ s s₁ b h₁), pos, i)

  -- A user command that returns CHAMGE_RETURN_OK had a channel, and is a document that names a
  -- queue in its member "to". It asked whether that queue exists, declared a reply queue of which
  -- the broker chose the name, published the command to the queue once, asking for the answer in
  -- the reply queue, listened there, and took at least one message, and nothing else. Then either
  -- it has no body and an error is set, or it has the body of an envelope that the broker handed
  -- over and the test of the correlation id accepts, and no error.
  pub handle_rpc_user_command-done :
      (fuel : ℕ) (conn : r.Connection) (channel : ℕ) (request : Text) (exchange : Option Text)
      (s t : Net r) (a : Answer)
      → handle_rpc_user_command g r fuel conn channel request exchange s ≡ ret (done a, t)
      → (queue reply_queue uuid : Text) × (n : ℕ) × (channel ≢ 0)
        × (get_queue_name g r request ≡ some queue)
        × (t.log
            ≡ receives_more n (
                listens reply_queue
                ∷ publishes
                    (or_empty exchange)
                    queue
                    (request_properties reply_queue (g.sha256_hex uuid))
                    request
                ∷ declares false []
                ∷ declares true queue
                ∷ s.log))
        × (0 < n)
        × IsAnswer r (g.sha256_hex uuid) a
  unfolding handle_rpc_user_command
  handle_rpc_user_command-done fuel conn channel request exchange s t a h =
      let (x₁, s₁, h₁, k₁) = >>=-done _ _ s t a h in
      let (queue, s₂, h₂, k₂) = >>=-done _ _ s₁ t a k₁ in
      let (x₃, s₃, h₃, k₃) = >>=-done _ _ s₂ t a k₂ in
      let (q₄, s₄, h₄, k₄) = >>=-done _ _ s₃ t a k₃ in
      let (reply_queue, s₅, h₅, k₅) = >>=-done _ _ s₄ t a k₄ in
      let (uuid, s₆, h₆, k₆) = >>=-done _ _ s₅ t a k₅ in
      let (status, s₇, h₇, k₇) = >>=-done _ _ s₆ t a k₆ in
      let (nonzero, e₁) = guard-done _ none s s₁ x₁ h₁ in
      let (named, e₂) = require-done _ _ s₁ s₂ queue h₂ in
      let l₃ = command_queue_existed-done conn channel queue s₂ s₃ x₃ h₃ in
      let l₄ = send-log _ _ s₃ s₄ q₄ h₄ in
      let (_, e₅) = command_guard_reply-done conn q₄ _ s₄ s₅ reply_queue h₅ in
      let l₆ = ask-log r.uuid_string_random s₅ s₆ uuid h₆ in
      let l₇ = send-log _ _ s₆ s₇ status h₇ in
      let (n, l, pos, i) =
        awaits_answer-done fuel conn channel reply_queue (g.sha256_hex uuid) status s₇ t a k₇ in
      let start = log-eq s₁ s₂ e₂ ∙ log-eq s s₁ e₁ in
      let before : s₇.log
          ≡ publishes (or_empty exchange) queue (request_properties reply_queue (g.sha256_hex uuid))
              request
            ∷ declares false []
            ∷ declares true queue
            ∷ s.log =
        l₇ after (l₆ ∙ log-eq s₄ s₅ e₅ ∙ l₄ after (l₃ after start)) in
      (
        queue,
        reply_queue,
        uuid,
        n,
        ground arith,
        named,
        l ∙ ap (λ m. receives_more n (listens reply_queue ∷ m)) before,
        pos,
        i,
      )
