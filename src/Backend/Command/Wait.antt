-- ===== src/Backend/Command/Wait.antt =====
-- The wait for the answer to a user command, which the source does not bound
-- (`_handle_rpc_user_command` of chamge/amqp-arbiter-backend.c).
use chamge.Prelude.{
  ℕ, zero, suc, ◌<◌, ◌≡◌, refl, ◌∙◌, Option, none, some, ◌∷◌, Text, ret, stop, unfinished, arith,
}
use chamge.Glib.{Glib}
use chamge.Amqp.{Rabbit, Net, done, receives, faults, ◌>>=◌}
use chamge.Rpc.{Answer}
use chamge.Rpc.Await.{receives_more, receives_more_snoc}
use chamge.Backend.Command.{received, await}

module _ (g : Glib) (r : Rabbit) (conn : r.Connection) (cid : Text) where
  -- The world after `n` messages.
  abbrev pub after_messages : ℕ → r.World → r.World
  after_messages zero w = w
  after_messages (suc n) w = after_messages n (r.consume_message conn w).1

  -- What the message that comes next makes of the wait.
  abbrev pub verdict : r.World → Option Answer
  verdict w = received g r cid (r.consume_message conn w).0.0 (r.consume_message conn w).0.1

  -- The messages before the `n`th leave the wait waiting.
  abbrev pub Waits : ℕ → r.World → Type 0
  Waits zero w = Unit {0}
  Waits (suc n) w = (verdict w ≡ none) × Waits n (r.consume_message conn w).1

  pub await_step :
      (fuel : ℕ) (s : Net r)
      → verdict s.world ≡ none
      → await g r (suc fuel) conn cid s
        ≡ await g r fuel conn cid
            (record { world = (r.consume_message conn s.world).1; log = receives ∷ s.log })
  unfolding await ◌>>=◌
  await_step fuel s more = ground arith

  pub await_end :
      (fuel : ℕ) (s : Net r) (a : Answer)
      → verdict s.world ≡ some a
      → await g r (suc fuel) conn cid s
        ≡ ret
            (done a, record { world = (r.consume_message conn s.world).1; log = receives ∷ s.log })
  unfolding await ◌>>=◌
  await_end fuel s a e = ground arith

  -- If the first `n` messages leave the wait waiting and the next one ends it with `a`, then with
  -- fuel for more than `n` messages the wait returns `a`, having taken `suc n` messages and done
  -- nothing else.
  pub await_ends :
      (n fuel : ℕ) (s : Net r) (a : Answer)
      → n < fuel
      → Waits n s.world
      → verdict (after_messages n s.world) ≡ some a
      → (t : Net r) × (await g r fuel conn cid s ≡ ret (done a, t))
        × (t.world ≡ after_messages (suc n) s.world)
        × (t.log ≡ receives_more (suc n) s.log)
  await_ends n zero s a h w e = absurd (omega arith)
  await_ends zero (suc fuel) s a h w e = (
    record { world = (r.consume_message conn s.world).1; log = receives ∷ s.log },
    await_end fuel s a e,
    refl,
    refl,
  )
  await_ends (suc n) (suc fuel) s a h (now, later) e =
      let s' : Net r = record {
        world = (r.consume_message conn s.world).1;
        log = receives ∷ s.log;
      } in
      let (t, ran, same, log) = await_ends n fuel s' a (omega arith) later e in
      (t, await_step fuel s now ∙ ran, same, log ∙ receives_more_snoc (suc n) s.log)

  -- While no message ends the wait, no fuel is enough.
  pub await_starves :
      (fuel : ℕ) (s : Net r) → Waits fuel s.world → await g r fuel conn cid s ≡ stop unfinished
  unfolding await faults
  await_starves zero s w = refl
  await_starves (suc fuel) s (now, later) =
      await_step fuel s now
      ∙ await_starves fuel
          (record { world = (r.consume_message conn s.world).1; log = receives ∷ s.log }) later
