-- ===== src/Backend/UserCommand/Steps.antt =====
-- The steps of a user command, at the backend that answers it and at the arbiter that waits for the
-- answer (`_process_amqp_message` of chamge/amqp-edge-backend.c and chamge/amqp-hub-backend.c,
-- `user_command` of chamge/amqp-arbiter-backend.c, chamge/amqp-source.c).
use chamge.Prelude.{
  ℕ, suc, ◌<◌, ◌≡◌, ◌∙◌, Bool, false, refl, true, none, some, List, ◌∷◌, [], Text, codes, length,
  strlen_reaches, strncmp_eq, Run, ret, arith,
}
use chamge.Glib.{Glib}
use chamge.Amqp.{
  Rabbit, Net, done, Properties, Envelope, RpcReply, normal, receives, publishes, ◌>>=◌,
}
use chamge.Rpc.{Answer, request_properties, is_queue_existed, is_timeout, answers, response_of}
use chamge.Backend.{checked, Request, respond, response_properties, handle_message}
use chamge.Backend.Messages.{property_text_iff, valid_content_type_iff, cstr_of_text}
use chamge.Backend.Command.{await, received}
use chamge.Backend.Command.Wait.{await_end}
use chamge.Source.{source_dispatch}

-- What a consumer takes of a message that was published.
abbrev pub delivered : ℕ → Properties → Text → RpcReply × Envelope
delivered channel props body =
    (normal, record { channel = channel; properties = props; body = some body })

strncmp_eq_refl : (a : Text) → strncmp_eq a a ≡ true
unfolding strncmp_eq
strncmp_eq_refl [] = refl
strncmp_eq_refl (x ∷ a) = ground (arith, strncmp_eq_refl a)

module _ (g : Glib) where
  -- A command as the arbiter sends it passes the checks of the edge.
  pub command_checked :
      (channel : ℕ) (cmd queue cid : Text)
      → g.same_ascii (codes "application/json") (codes "application/json") 16 ≡ true
      → 0 < length queue
      → strlen_reaches queue ≡ true
      → 0 < length cid
      → strlen_reaches cid ≡ true
      → checked g normal (delivered channel (request_properties queue cid) cmd).1
        ≡ some (record { body = cmd; reply_queue = queue; correlation_id = some cid })
  unfolding checked request_properties
  command_checked channel cmd queue cid same q q' c c' =
      let json =
        (valid_content_type_iff g (some (codes "application/json"))).1
          (codes "application/json", refl, refl, same) in
      let named = (property_text_iff (some queue) queue).1 (refl, q, q') in
      let known = (property_text_iff (some cid) cid).1 (refl, c, c') in ground arith

  -- The answer of the edge passes the checks of the arbiter.
  pub answer_received :
      (r : Rabbit) (channel : ℕ) (cid text : Text)
      → strlen_reaches text ≡ true
      → received g r cid
          (delivered channel (response_properties (some cid)) text).0
          (delivered channel (response_properties (some cid)) text).1
        ≡ some (record { body = some text; error = none })
  unfolding received answers response_of response_properties
  answer_received r channel cid text t =
      let hit = strncmp_eq_refl cid in let whole = cstr_of_text text t in ground arith

-- A C string that is not empty.
abbrev pub IsText : Text → Type 0
IsText t = (0 < length t) × (strlen_reaches t ≡ true)

module _ (g : Glib) (r : Rabbit) where
  pub dispatched :
      {S : Type 0} (conn : r.Connection)
      (handler : RpcReply → Envelope → S × Net r → Run (Bool × S × Net r)) (x x' : S) (s t : Net r)
      (w : r.World) (message : RpcReply × Envelope)
      → r.consume_message conn s.world ≡ (message, w)
      → is_timeout message.0 ≡ false
      → handler message.0 message.1 (x, record { world = w; log = receives ∷ s.log })
        ≡ ret (true, x', t)
      → source_dispatch r conn (some handler) (x, s) ≡ ret (true, x', t)
  unfolding source_dispatch
  dispatched conn handler x x' s t w message comes on_time ran = rw (comes, on_time, ran)

  pub handled :
      {S : Type 0} (process : List ℕ → S × Net r → Run (Text × S × Net r)) (conn : r.Connection)
      (envelope : Envelope) (request : Request) (text : Text) (x x' : S) (s t v : Net r)
      → checked g normal envelope ≡ some request
      → process request.body (x, s) ≡ ret (text, x', t)
      → respond g r conn envelope.channel request text t ≡ ret (done tt, v)
      → handle_message g r process conn normal envelope (x, s) ≡ ret (x', v)
  unfolding handle_message checked
  handled process conn envelope request text x x' s t v passes ran sent = rw (passes, ran, sent)

  pub awaited :
      (fuel : ℕ) (conn : r.Connection) (cid : Text) (a : Net r) (w : r.World)
      (message : RpcReply × Envelope) (answer : Answer)
      → r.consume_message conn a.world ≡ (message, w)
      → received g r cid message.0 message.1 ≡ some answer
      → await g r (suc fuel) conn cid a
        ≡ ret (done answer, record { world = w; log = receives ∷ a.log })
  awaited fuel conn cid a w message answer comes fits =
      await_end g r conn cid fuel a answer (rw comes fits) ∙ rw comes

  pub respond_found :
      (conn : r.Connection) (channel : ℕ) (request : Request) (text : Text) (t u : Net r)
      → is_queue_existed g r conn channel (some request.reply_queue) t ≡ ret (done tt, u)
      → let props = response_properties request.correlation_id in
        respond g r conn channel request text t
        ≡ ret (
          done tt,
          record {
            world = (r.basic_publish conn channel [] request.reply_queue props text u.world).1;
            log = publishes [] request.reply_queue props text ∷ u.log;
          },
        )
  unfolding respond ◌>>=◌
  respond_found conn channel request text t u found = ground arith
