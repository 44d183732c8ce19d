-- ===== src/Rpc/Await.antt =====
-- The wait for an answer (_amqp_rpc_request in chamge/amqp-edge-backend.c).
use chamge.Prelude.{
  ℕ, zero, suc, ◌+◌, ◌≤◌, ◌<◌, ◌≡◌, refl, true, false, none, some, List, ◌∷◌, inl, inr, Text, ret,
  arith, Bool-cases, Option-cases, ltb, ◌∙◌, ap, sym, subst, is_some,
}
use chamge.Glib.{Glib}
use chamge.Amqp.{Rabbit, Net, done, Event, receives, Envelope, RpcReply, ◌>>=◌}
use chamge.Rpc.{Answer, answers, response_of, received, is_timeout, is_normal, no_response, await}

-- The log after `n` calls of amqp_consume_message more.
abbrev pub receives_more : ℕ → List Event → List Event
receives_more zero l = l
receives_more (suc n) l = receives ∷ receives_more n l

pub receives_more_snoc :
    (n : ℕ) (l : List Event) → receives_more n (receives ∷ l) ≡ receives_more (suc n) l
receives_more_snoc zero l = refl
receives_more_snoc (suc n) l = ground (arith, receives_more_snoc n l)

-- That the broker has handed over an envelope.
pub data Taken (r : Rabbit) (envelope : Envelope) : Type 0 where
  taken :
      (conn : r.Connection) (w w' : r.World) (reply : RpcReply)
      → r.consume_message conn w ≡ ((reply, envelope), w')
      → Taken r envelope

-- Either an error is set and there is no body, or the body is that of an envelope that the broker
-- has handed over and that answers.
pub data IsAnswer (r : Rabbit) (cid : Text) (a : Answer) : Type 0 where
  gave_up : is_some a.error ≡ true → a.body ≡ none → IsAnswer r cid a
  answered :
      (envelope : Envelope)
      → Taken r envelope
      → answers cid envelope ≡ true
      → a.error ≡ none
      → a.body ≡ response_of envelope
      → IsAnswer r cid a

module _ (g : Glib) (r : Rabbit) where
  received-IsAnswer :
      (cid : Text) (reply : RpcReply) (envelope : Envelope) (a : Answer)
      → Taken r envelope
      → received g r cid reply envelope ≡ some a
      → IsAnswer r cid a
  unfolding received
  received-IsAnswer cid reply envelope a t h = elim (Bool-cases (is_timeout reply)) [
    | inl late ↦ gave_up (ground arith) (ground arith)
    | inr _ ↦ elim (Bool-cases (is_normal reply)) [
      | inr odd ↦ gave_up (ground arith) (ground arith)
      | inl fine ↦ elim (Bool-cases (answers cid envelope)) [
        | inl hit ↦ answered envelope t hit (ground arith) (ground arith)
        | inr miss ↦ absurd (ground arith)
      ]
    ]
  ]

  await_more :
      (fuel retry : ℕ) (conn : r.Connection) (cid : Text) (s : Net r)
      → let ((reply, envelope), w) = r.consume_message conn s.world in
        ltb 10 retry ≡ false
        → received g r cid reply envelope ≡ none
        → await g r (suc fuel) retry conn cid s
          ≡ await g r fuel (retry + 1) conn cid (record { world = w; log = receives ∷ s.log })
  unfolding await ◌>>=◌
  await_more fuel retry conn cid s under more = ground arith

  await_last :
      (fuel retry : ℕ) (conn : r.Connection) (cid : Text) (s : Net r) (a : Answer)
      → let ((reply, envelope), w) = r.consume_message conn s.world in
        ltb 10 retry ≡ false
        → received g r cid reply envelope ≡ some a
        → await g r (suc fuel) retry conn cid s
          ≡ ret (done a, record { world = w; log = receives ∷ s.log })
  unfolding await ◌>>=◌
  await_last fuel retry conn cid s a under e = ground arith

  -- With more fuel than the messages that it may still take, the wait returns: it has taken only
  -- messages, at most as many as bring the count to 11, and at least one if the count is at most
  -- 10; either it has no body and an error is set, or it has the body of an envelope that the
  -- broker handed over and the test of the correlation id accepts, and no error.
  pub await_returns :
      (fuel retry : ℕ) (conn : r.Connection) (cid : Text) (s : Net r)
      → 11 < fuel + retry
      → retry ≤ 11
      → (a : Answer) × (t : Net r) × (n : ℕ) × (await g r fuel retry conn cid s ≡ ret (done a, t))
        × (t.log ≡ receives_more n s.log)
        × (n + retry ≤ 11)
        × (retry ≤ 10 → 0 < n)
        × IsAnswer r cid a
  unfolding await ◌>>=◌
  await_returns zero retry conn cid s h k = absurd (omega arith)
  await_returns (suc fuel) retry conn cid s h k = elim (Bool-cases (ltb 10 retry)) [
    | inl over ↦ (
      no_response,
      s,
      0,
      rw over,
      refl,
      omega arith,
      ground arith,
      gave_up (unfold no_response in refl) (unfold no_response in refl),
    )
    | inr under ↦
        let ((reply, envelope), w) = r.consume_message conn s.world in
        let s' : Net r = record { world = w; log = receives ∷ s.log } in
        elim (Option-cases (received g r cid reply envelope)) [
          | inl more ↦
              let (a, t, n, e, l, b, _, i) =
                await_returns fuel (retry + 1) conn cid s' (omega arith) (ground arith) in
              (
                a,
                t,
                suc n,
                await_more fuel retry conn cid s under more ∙ e,
                l ∙ receives_more_snoc n s.log,
                omega arith,
                (λ _. omega arith),
                i,
              )
          | inr (a, e) ↦ (
            a,
            s',
            1,
            await_last fuel retry conn cid s a under e,
            refl,
            ground arith,
            (λ _. omega arith),
            received-IsAnswer cid reply envelope a (taken conn s.world w reply refl) e,
          )
        ]
  ]

  pub await-done :
      (conn : r.Connection) (cid : Text) (s t : Net r) (a : Answer)
      → await g r 12 0 conn cid s ≡ ret (done a, t)
      → (n : ℕ) × (t.log ≡ receives_more n s.log) × (0 < n) × (n ≤ 11) × IsAnswer r cid a
  await-done conn cid s t a h =
      let (b, u, n, ran, l, bound, pos, i) =
        await_returns 12 0 conn cid s (omega arith) (omega arith) in
      let same : (b ≡ a) × (u ≡ t) = ground arith in
      (
        n,
        ap (λ (x : Net r). x.log) (sym same.1) ∙ l,
        pos (omega arith),
        omega arith,
        subst (IsAnswer r cid) same.0 i,
      )
