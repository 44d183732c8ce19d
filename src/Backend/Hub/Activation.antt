-- ===== src/Backend/Hub/Activation.antt =====
-- What the activation of a hub leaves (chamge_amqp_hub_backend_activate of
-- chamge/amqp-hub-backend.c).
use chamge.Prelude.{
  Option, none, ◌≡◌, ◌⊎◌, refl, ap, ◌∙◌, true, false, none, some, ◌∷◌, Text, codes, Run, ret, stop,
  arith, inl, inr,
}
use chamge.Types.{Return, ok, fail}
use chamge.Glib.{Glib}
use chamge.Amqp.{Rabbit, Net, Outcome, done, failed, declares, binds, listens}
use chamge.Amqp.Runs.{>>=-done, log-eq}
use chamge.Rpc.{Answer, rpc_request, rpc_subscribe, validate_response}
use chamge.Rpc.Setup.{rpc_subscribe-done}
use chamge.Backend.{Config, Object}
use chamge.Backend.Hub.{
  request_body, validate_hub_response, check_response, request, subscribed, accepted, activate,
}

module _ (g : Glib) (r : Rabbit) (cfg : Config) where
  check_response-done :
      (response : Option Text) (shouldbe : Text) (s t : Net r) (x : Unit {0})
      → check_response g r cfg response shouldbe s ≡ ret (done x, t)
      → (validate_response g response shouldbe ≡ ok) × (s ≡ t)
  unfolding check_response validate_hub_response
  check_response-done none shouldbe s t x h = absurd (ground arith)
  check_response-done (some response) shouldbe s t x h = ground arith

  pub request-done :
      (conn : r.Connection) (method uid shouldbe : Text) (s t : Net r) (x : Unit {0})
      → request g r cfg conn method uid shouldbe s ≡ ret (done x, t)
      → (a : Answer) × (u : Net r) × (rpc_request g r conn cfg.amqp_channel
            (request_body method uid)
            (some cfg.enroll_exchange_name)
            (some cfg.enroll_queue_name)
            s
          ≡ ret (done a, u))
        × (validate_response g a.body shouldbe ≡ ok)
        × (t.log ≡ u.log)
  unfolding request
  request-done conn method uid shouldbe s t x h =
      let (a, u, asked, rest) = >>=-done _ _ s t x h in
      let (fine, same) = check_response-done a.body shouldbe u t x rest in
      (a, u, asked, fine, log-eq u t same)

  -- The flag and the source, however the subscription ended.
  subscribed-cases :
      (o o' : Object r) (m : Run (Outcome (Unit {0}) × Net r)) (x : Return) (t : Net r)
      → subscribed g r cfg o m ≡ ret (x, o', t)
      → (o'.activated ≡ o.activated)
        × ((x ≡ fail) × (o' ≡ o)
            ⊎ (x ≡ ok)
              × (y : Unit {0}) × (u : Net r) × (m ≡ ret (done y, u))
              × (o'.process_id ≡ (r.source_add u.world).0)
              × (t.log ≡ u.log))
  unfolding subscribed
  subscribed-cases o o' (stop f) x t h = absurd (ground arith)
  subscribed-cases o o' (ret (failed e, u)) x t h = (ground arith, inl (ground arith))
  subscribed-cases o o' (ret (done y, u)) x t h =
      (ground arith, inr (ground arith, y, u, refl, ground arith, ground arith))

  accepted-cases :
      (uid : Text) (o o' : Object r) (m : Run (Outcome (Unit {0}) × Net r)) (x : Return) (t : Net r)
      → accepted g r cfg uid o m ≡ ret (x, o', t)
      → (x ≡ fail) × (o'.process_id ≡ o.process_id)
        ⊎ (x ≡ ok)
          × (o'.activated ≡ true)
          × (y : Unit {0}) × (u : Net r) × (m ≡ ret (done y, u))
          × (t.log
              ≡ listens uid ∷ binds cfg.enroll_exchange_name uid uid ∷ declares false uid ∷ u.log)
  unfolding accepted
  accepted-cases uid o o' (stop f) x t h = absurd (ground arith)
  accepted-cases uid o o' (ret (failed e, u)) x t h = inl (ground arith)
  accepted-cases uid o o' (ret (done y, u)) x t h =
      let sub = rpc_subscribe g r o.amqp_conn cfg.amqp_channel cfg.enroll_exchange_name uid u in
      let (flag, ends) = subscribed-cases (record o { activated = true }) o' sub x t h in
      elim ends [
        | inl (bad, same) ↦ inl (bad, ground arith)
        | inr (fine, z, v, ran, id, log) ↦
            let (_, sent) =
              rpc_subscribe-done g r o.amqp_conn cfg.amqp_channel cfg.enroll_exchange_name uid u v z
                ran in
            inr (fine, flag, y, u, refl, log ∙ sent)
      ]

  -- An activation that returns either returns CHAMGE_RETURN_FAIL and leaves the id of the event
  -- source as it was; or it returns CHAMGE_RETURN_OK and has set the flag: then the arbiter was
  -- asked to activate the hub and gave an answer that is accepted, and after that the queue of
  -- the hub was declared, bound to the exchange and listened to, and nothing else was sent.
  pub hub_activate-cases :
      (uid : Text) (o o' : Object r) (x : Return) (s t : Net r)
      → activate g r cfg (some uid) o s ≡ ret (x, o', t)
      → (x ≡ fail) × (o'.process_id ≡ o.process_id)
        ⊎ (x ≡ ok)
          × (o'.activated ≡ true)
          × (a : Answer) × (u : Net r) × (rpc_request g r o.amqp_conn cfg.amqp_channel
                (request_body (codes "activate") uid)
                (some cfg.enroll_exchange_name)
                (some cfg.enroll_queue_name)
                s
              ≡ ret (done a, u))
          × (validate_response g a.body (codes "activated") ≡ ok)
          × (t.log
              ≡ listens uid ∷ binds cfg.enroll_exchange_name uid uid ∷ declares false uid ∷ u.log)
  unfolding activate
  hub_activate-cases uid o o' x s t h =
      let m = request g r cfg o.amqp_conn (codes "activate") uid (codes "activated") s in
      elim (accepted-cases uid o o' m x t h) [
        | inl bad ↦ inl bad
        | inr (fine, flag, y, v, asked, log) ↦
            let (a, u, sent, valid, same) =
              request-done o.amqp_conn (codes "activate") uid (codes "activated") s v y asked in
            inr (
              fine,
              flag,
              a,
              u,
              sent,
              valid,
              log
                  ∙ ap
                      (λ l.
                        listens uid
                        ∷ binds cfg.enroll_exchange_name uid uid
                        ∷ declares false uid
                        ∷ l)
                      same,
            )
      ]
