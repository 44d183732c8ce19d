-- ===== src/Backend/Messages.antt =====
-- Which messages the backends answer, and what an answer sends (`_process_amqp_message` of
-- chamge/amqp-edge-backend.c and its siblings).
use chamge.Prelude.{
  ℕ, ◌<◌, ◌≡◌, ◌↔◌, ◌⊎◌, inl, inr, refl, sym, ap, subst, ◌∙◌, true, Option, none, some, List, [],
  ◌∷◌, Text, codes, length, cstr, strlen_reaches, Run, ret, arith, Option-cases, Run-cases,
}
use chamge.Glib.{Glib}
use chamge.Amqp.{Rabbit, Net, Outcome, declares, publishes, Envelope, RpcReply, normal, ◌>>=◌}
use chamge.Rpc.{is_queue_existed, fail_with_reply, require_reply, is_normal}
use chamge.Backend.{
  Request, checked, valid_content_type, property_text, respond, response_properties, handle_message,
}

pub cstr_of_text : (t : List ℕ) → strlen_reaches t ≡ true → cstr t ≡ t
unfolding cstr strlen_reaches
cstr_of_text [] h = refl
cstr_of_text (x ∷ t) h = ground (arith, cstr_of_text t)

-- The content type is present, has 16 bytes, and GLib finds it equal to "application/json".
abbrev pub IsJson : Glib → Option Text → Type 0
IsJson g t =
    (x : Text) × (t ≡ some x)
    × (length x ≡ 16)
    × (g.same_ascii (codes "application/json") x 16 ≡ true)

abbrev pub IsName : Option Text → Text → Type 0
IsName t x = (t ≡ some x) × (0 < length x) × (strlen_reaches x ≡ true)

pub property_text_iff : (t : Option Text) (x : Text) → (property_text t ≡ some x) ↔ IsName t x
unfolding property_text
property_text_iff none x = (λ h. absurd (ground arith), λ h. absurd (ground arith))
property_text_iff (some y) x =
    (λ h. ground (arith, cstr_of_text y), λ h. ground (arith, cstr_of_text x h.2))

pub valid_content_type_iff :
    (g : Glib) (t : Option Text) → (valid_content_type g t ≡ true) ↔ IsJson g t
unfolding valid_content_type
valid_content_type_iff g none = (λ h. absurd (ground arith), λ h. absurd (ground arith))
valid_content_type_iff g (some x) =
    (λ h. (x, refl, ground arith, ground arith), λ (y, e, l, same). ground arith)

-- A message is processed exactly when it came with a normal reply, has a body, has the content type
-- "application/json" as GLib compares it, and names a queue for the reply that is not empty and has
-- no 0 byte.
pub checked_iff :
    (g : Glib) (reply : RpcReply) (envelope : Envelope)
    → ((request : Request) × (checked g reply envelope ≡ some request)) ↔ (
        (body : List ℕ) × (queue : Text) × (reply ≡ normal)
        × (envelope.body ≡ some body)
        × IsJson g envelope.properties.content_type
        × IsName envelope.properties.reply_to queue)
unfolding checked
checked_iff g reply envelope = (forward, λ (b, q, n, e, j, w). backward b q n e j w)
  where
    forward :
        (request : Request) × (checked g reply envelope ≡ some request)
        → (body : List ℕ) × (queue : Text) × (reply ≡ normal)
          × (envelope.body ≡ some body)
          × IsJson g envelope.properties.content_type
          × IsName envelope.properties.reply_to queue
    forward (request, h) =
        let type = envelope.properties.content_type in
        let found : (envelope.body ≡ some request.body)
            × (valid_content_type g type ≡ true)
            × (property_text envelope.properties.reply_to ≡ some request.reply_queue)
            × (is_normal reply ≡ true) =
          ground arith in
        (
          request.body,
          request.reply_queue,
          ground arith,
          found.0,
          (valid_content_type_iff g type).0 found.1,
          (property_text_iff envelope.properties.reply_to request.reply_queue).0 found.2,
        )

    backward :
        (body : List ℕ) (queue : Text)
        → reply ≡ normal
        → envelope.body ≡ some body
        → IsJson g envelope.properties.content_type
        → IsName envelope.properties.reply_to queue
        → (request : Request) × (checked g reply envelope ≡ some request)
    backward body queue n e j w =
        let json = (valid_content_type_iff g envelope.properties.content_type).1 j in
        let named = (property_text_iff envelope.properties.reply_to queue).1 w in
        (
          record {
            body = body;
            reply_queue = queue;
            correlation_id = property_text envelope.properties.correlation_id;
          },
          ground arith,
        )

module _ (g : Glib) (r : Rabbit) where
  -- What an answer has done: the broker is asked for the queue on the channel of the message; the
  -- response is published there exactly if the broker has found it, and is the last thing that is
  -- sent.
  abbrev pub IsSent : r.Connection → ℕ → Request → Text → Net r → Net r → Type 0
  IsSent conn channel request response u t =
      let (found, w) = r.queue_declare conn channel request.reply_queue true u.world in
      let properties = response_properties request.correlation_id in
      (found ≡ none) × (t.log ≡ declares true request.reply_queue ∷ u.log)
      ⊎ (name : Text) × (found ≡ some name)
        × (t.world ≡ (r.basic_publish conn channel [] request.reply_queue properties response w).1)
        × (t.log
            ≡ publishes [] request.reply_queue properties response
              ∷ declares true request.reply_queue
              ∷ u.log)

  respond-log :
      (conn : r.Connection) (channel : ℕ) (request : Request) (response : Text) (s t : Net r)
      (o : Outcome (Unit {0}))
      → respond g r conn channel request response s ≡ ret (o, t)
      → IsSent conn channel request response s t
  unfolding respond is_queue_existed require_reply fail_with_reply ◌>>=◌
  respond-log conn channel request response s t o h =
      elim (Option-cases (r.queue_declare conn channel request.reply_queue true s.world).0) [
        | inl missing ↦ inl (missing, ground arith)
        | inr (name, there) ↦ inr (name, there, ground arith, ground arith)
      ]

  module _ {S : Type 0} (process : List ℕ → S × Net r → Run (Text × S × Net r)) where
    -- A message that is not processed changes nothing. One that is runs the handler once, and then
    -- the broker is asked for the queue that the message names. If it has that queue, the response
    -- of the handler is published there, on the channel of the message and with the correlation id
    -- of the message if it has one; if it has not, nothing more is sent.
    pub handle_message_sends :
        (conn : r.Connection) (reply : RpcReply) (envelope : Envelope) (x x' : S) (s t : Net r)
        → handle_message g r process conn reply envelope (x, s) ≡ ret (x', t)
        → (checked g reply envelope ≡ none) × (x' ≡ x) × (t ≡ s)
          ⊎ ((request : Request) × (response : Text) × (u : Net r) × (checked g reply envelope
                ≡ some request)
              × (process request.body (x, s) ≡ ret (response, x', u))
              × IsSent conn envelope.channel request response u t)
    unfolding handle_message
    handle_message_sends conn reply envelope x x' s t h =
        elim (Option-cases (checked g reply envelope)) [
          | inl dropped ↦ inl (dropped, ground arith, ground arith)
          | inr (request, go) ↦ elim (Run-cases (process request.body (x, s))) [
            | inr (e, stopped) ↦ absurd (ground arith)
            | inl ((response, y, u), ran) ↦
                elim (Run-cases (respond g r conn envelope.channel request response u)) [
                  | inr (e, stopped) ↦ absurd (ground arith)
                  | inl ((o, v), answered) ↦
                      let same : (x' ≡ y) × (v ≡ t) = ground arith in
                      inr (
                        request,
                        response,
                        u,
                        go,
                        ran ∙ ap (λ (z : S). ret (response, z, u)) (sym same.0),
                        subst (λ (w : Net r). IsSent conn envelope.channel request response u w)
                            same.1
                            (respond-log conn envelope.channel request response u v o answered),
                      )
                ]
          ]
        ]
