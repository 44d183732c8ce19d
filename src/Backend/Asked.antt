-- ===== src/Backend/Asked.antt =====
-- A request of an edge or a hub that the arbiter has answered as it should (`_amqp_rpc_request` and
-- `_validate_response` of chamge/amqp-edge-backend.c and chamge/amqp-hub-backend.c).
pub mod OwnConnection
use chamge.Prelude.{
  ℕ, ◌≤◌, ◌≡◌, ◌≢◌, refl, sym, ◌∙◌, true, false, Option, none, some, List, ◌∷◌, [], Text, ret,
  arith, subst,
}
use chamge.Types.{ok}
use chamge.Glib.{Glib}
use chamge.Amqp.{Rabbit, Net, done, Event, Envelope, declares, listens, publishes}
use chamge.Rpc.{Answer, answers, response_of, request_properties, rpc_request, validate_response}
use chamge.Rpc.Await.{Taken, IsAnswer, gave_up, answered, receives_more}
use chamge.Rpc.Trace.{rpc_request-done}
use chamge.Backend.{Config}

-- What a call has sent and taken, from the log before to the log after, when its request got the
-- answer `shouldbe`.
pub record IsAsked (g : Glib) (r : Rabbit) (cfg : Config) (request shouldbe : Text)
    (before after : List Event) : Type 0 where
  pub reply_queue : Text
  pub correlation_id : Text
  pub messages : ℕ
  pub bounded : messages ≤ 11
  pub envelope : Envelope
  pub from_broker : Taken r envelope
  pub fits : answers correlation_id envelope ≡ true
  pub text : Text
  pub held : response_of envelope ≡ some text
  pub accepted : validate_response g (some text) shouldbe ≡ ok
  pub sent :
      after
      ≡ receives_more messages (
          listens reply_queue
          ∷ publishes cfg.enroll_exchange_name cfg.enroll_queue_name
              (request_properties reply_queue correlation_id)
              request
          ∷ declares false []
          ∷ declares true cfg.enroll_queue_name
          ∷ before)

module _ (g : Glib) (r : Rabbit) (cfg : Config) where
  text_of :
      (body : Option Text) (shouldbe : Text)
      → validate_response g body shouldbe ≡ ok
      → (text : Text) × (body ≡ some text)
  unfolding validate_response
  text_of none shouldbe h = absurd (ground arith)
  text_of (some text) shouldbe h = (text, refl)

  pub rpc_request-IsAsked :
      (conn : r.Connection) (request shouldbe : Text) (s t : Net r) (a : Answer)
      → rpc_request g r conn cfg.amqp_channel request
          (some cfg.enroll_exchange_name)
          (some cfg.enroll_queue_name)
          s
        ≡ ret (done a, t)
      → validate_response g a.body shouldbe ≡ ok
      → (cfg.amqp_channel ≢ 0) × IsAsked g r cfg request shouldbe s.log t.log
  rpc_request-IsAsked conn request shouldbe s t a h v =
      let (queue, reply_queue, cid, n, nonzero, named, log, pos, bound, i) =
        rpc_request-done g r conn cfg.amqp_channel request (some cfg.enroll_exchange_name)
          (some cfg.enroll_queue_name) s t a h in
      let (text, here) = text_of a.body shouldbe v in
      (nonzero, go queue reply_queue cid n text named log bound here i)
    where
      go :
          (queue reply_queue cid : Text) (n : ℕ) (text : Text)
          → some cfg.enroll_queue_name ≡ some queue
          → t.log
            ≡ receives_more n (
                listens reply_queue
                ∷ publishes cfg.enroll_exchange_name queue
                    (request_properties reply_queue cid)
                    request
                ∷ declares false []
                ∷ declares true queue
                ∷ s.log)
          → n ≤ 11
          → a.body ≡ some text
          → IsAnswer r cid a
          → IsAsked g r cfg request shouldbe s.log t.log
      go queue reply_queue cid n text named log bound here (gave_up e b) = absurd (ground arith)
      go queue reply_queue cid n text named log bound here (answered env from_broker hit e b) =
          record {
            reply_queue = reply_queue;
            correlation_id = cid;
            messages = n;
            bounded = bound;
            envelope = env;
            from_broker = from_broker;
            fits = hit;
            text = text;
            held = sym b ∙ here;
            accepted = ground arith;
            sent = ground arith;
          }
