-- ===== src/Backend/UserCommand/RoundTrip.antt =====
-- A user command from the arbiter to an edge and back (`user_command` of
-- chamge/amqp-arbiter-backend.c, `_process_amqp_message` of chamge/amqp-edge-backend.c,
-- chamge/amqp-source.c).
use chamge.Prelude.{
  ℕ, suc, ◌≡◌, refl, true, none, some, ◌∷◌, [], Text, codes, strlen_reaches, Run, ret, arith,
  Option-cases, inl, inr,
}
use chamge.Glib.{Glib}
use chamge.Amqp.{Rabbit, Net, done, receives, publishes}
use chamge.Rpc.{request_properties, is_queue_existed}
use chamge.Node.{Reply}
use chamge.Backend.{Object, Request, response_properties}
use chamge.Backend.Messages.{cstr_of_text}
use chamge.Backend.Edge.{process_amqp_message, process_json_message}
use chamge.Backend.Command.{await}
use chamge.Backend.UserCommand.{enrolled_closure, command_response, answer_text}
use chamge.Source.{source_dispatch}
use chamge.Backend.UserCommand.Steps.{
  delivered, IsText, command_checked, answer_received, dispatched, handled, awaited, respond_found,
}

module _ (g : Glib) (r : Rabbit) where
  module _ {S : Type 0} (emit : Text → S × Net r → Run (Reply × (S × Net r))) where
    command_processed :
        (cmd : Text) (doc : g.Document) (p : Reply) (x x' : S) (s t : Net r)
        → strlen_reaches cmd ≡ true
        → g.load cmd ≡ some doc
        → emit cmd (x, s) ≡ ret (p, (x', t))
        → process_json_message g r (command_response emit enrolled_closure) cmd (x, s)
          ≡ ret (answer_text p.out, x', t)
    unfolding process_json_message command_response enrolled_closure answer_text
    command_processed cmd doc p x x' s t whole loads ran =
        let same = cstr_of_text cmd whole in
        elim (Option-cases p.out) [ inl nothing ↦ ground arith | inr (text, given) ↦ ground arith ]

    -- Let the backend of an edge be activated, its closure be set, and a command, which is a JSON
    -- document, reach its event source with the properties that the arbiter gives it. If the
    -- handlers of the signal return, the response is a C string, and the reply queue exists, then
    -- the source is kept, the handlers have run once, and their response, or "not ok" if they gave
    -- none, is published to the reply queue; and when it comes to the arbiter that waits for it
    -- with the correlation id of the command, the wait ends with that text and no error.
    pub user_command_round_trip :
        (o : Object r) (channel back fuel : ℕ) (conn : r.Connection) (cmd queue uuid : Text)
        (doc : g.Document) (p : Reply) (x x' : S) (s t u a : Net r) (w w' : r.World)
        → o.activated ≡ true
        → g.same_ascii (codes "application/json") (codes "application/json") 16 ≡ true
        → IsText queue
        → IsText (g.sha256_hex uuid)
        → strlen_reaches cmd ≡ true
        → g.load cmd ≡ some doc
        → r.consume_message o.amqp_conn s.world
          ≡ (delivered channel (request_properties queue (g.sha256_hex uuid)) cmd, w)
        → emit cmd (x, record { world = w; log = receives ∷ s.log }) ≡ ret (p, (x', t))
        → strlen_reaches (answer_text p.out) ≡ true
        → is_queue_existed g r o.amqp_conn channel (some queue) t ≡ ret (done tt, u)
        → r.consume_message conn a.world ≡ (
          delivered back (response_properties (some (g.sha256_hex uuid))) (answer_text p.out),
          w',
        )
        → let props = response_properties (some (g.sha256_hex uuid)) in
          (source_dispatch r o.amqp_conn
              (some (process_amqp_message g r (command_response emit enrolled_closure) o))
              (x, s)
            ≡ ret (
              true,
              x',
              record {
                world =
                    (r.basic_publish o.amqp_conn channel [] queue props
                      (answer_text p.out)
                      u.world).1;
                log = publishes [] queue props (answer_text p.out) ∷ u.log;
              },
            ))
          × (await g r (suc fuel) conn (g.sha256_hex uuid) a
              ≡ ret (
                done (record { body = some (answer_text p.out); error = none }),
                record { world = w'; log = receives ∷ a.log },
              ))
    unfolding process_amqp_message
    user_command_round_trip o channel back fuel conn cmd queue uuid doc p x x' s t u a w w' on same
          q c whole loads comes ran text found returns =
        let cid = g.sha256_hex uuid in
        let message = delivered channel (request_properties queue cid) cmd in
        let answer = delivered back (response_properties (some cid)) (answer_text p.out) in
        let request : Request = record {
          body = cmd;
          reply_queue = queue;
          correlation_id = some cid;
        } in
        let s' : Net r = record { world = w; log = receives ∷ s.log } in
        let v : Net r = record {
          world =
              (r.basic_publish o.amqp_conn channel [] queue (response_properties (some cid))
                (answer_text p.out) u.world).1;
          log = publishes [] queue (response_properties (some cid)) (answer_text p.out) ∷ u.log;
        } in
        let process = process_json_message g r (command_response emit enrolled_closure) in
        let turn =
          handled g r process o.amqp_conn message.1 request (answer_text p.out) x x' s' t v
            (command_checked g channel cmd queue cid same q.0 q.1 c.0 c.1)
            (command_processed cmd doc p x x' s' t whole loads ran)
            (respond_found g r o.amqp_conn channel request (answer_text p.out) t u found) in
        (
          dispatched g r o.amqp_conn
              (process_amqp_message g r (command_response emit enrolled_closure) o) x x' s v w
              message comes refl (rw (on, turn)),
          awaited g r fuel conn cid a w' answer
              (record { body = some (answer_text p.out); error = none }) returns
              (answer_received g r back cid (answer_text p.out) text),
        )
