-- ===== src/Source/Loop.antt =====
-- The event source of an edge under the main loop (chamge/amqp-source.c, `_process_amqp_message` of
-- chamge/amqp-edge-backend.c).
use chamge.Prelude.{
  ◌≡◌, Bool, true, false, ◌||◌, Option, some, List, [], ◌∷◌, Text, Run, ret, arith, subst,
  Bool-cases, Run-cases, inl, inr, ◌⊎◌, refl,
}
use chamge.Glib.{Glib}
use chamge.Amqp.{Rabbit, Net, Envelope, RpcReply, receives}
use chamge.Rpc.{is_timeout}
use chamge.Backend.{Object, handle_message}
use chamge.Backend.Edge.{process_amqp_message, process_json_message}
use chamge.Source.{Conditions, source_prepare, source_check, source_dispatch, iteration, iterations}

module _ (g : Glib) (r : Rabbit) {S : Type 0}
    (user_command : Text → S × Net r → Run (Option Text × S × Net r)) (conn : r.Connection)
    (o : Object r) where
  -- There is something to read: frames that have arrived before, or a condition of the socket.
  abbrev pub is_ready : Conditions → Net r → Bool
  is_ready c s = r.frames_enqueued conn s.world || (c.io_in || (c.io_hup || c.io_err))

  -- The message that is next, and the state after it was taken.
  abbrev next_reply : Net r → RpcReply
  next_reply s = (r.consume_message conn s.world).0.0

  abbrev next_envelope : Net r → Envelope
  next_envelope s = (r.consume_message conn s.world).0.1

  abbrev after_message : Net r → Net r
  after_message s = record { world = (r.consume_message conn s.world).1; log = receives ∷ s.log }

  -- What the iterations do, one by one, with the data and the net before and after, and whether the
  -- source is still there.
  pub data Runs : List Conditions → S → Net r → Bool → S → Net r → Type 0 where
    ends : {x : S} {s : Net r} → Runs [] x s true x s
    -- Nothing to read: nothing is taken.
    idles :
        {c : Conditions} {cs : List Conditions} {x x' : S} {s t : Net r} {kept : Bool}
        → is_ready c s ≡ false
        → Runs cs x s kept x' t
        → Runs (c ∷ cs) x s kept x' t
    -- There was no whole message: the source is kept.
    waits :
        {c : Conditions} {cs : List Conditions} {x x' : S} {s t : Net r} {kept : Bool}
        → is_ready c s ≡ true
        → is_timeout (next_reply s) ≡ true
        → Runs cs x (after_message s) kept x' t
        → Runs (c ∷ cs) x s kept x' t
    -- One message is taken and handled by an activated backend: the source is kept.
    handles :
        {c : Conditions} {cs : List Conditions} {x y x' : S} {s u t : Net r} {kept : Bool}
        → is_ready c s ≡ true
        → is_timeout (next_reply s) ≡ false
        → o.activated ≡ true
        → handle_message g r
            (process_json_message g r user_command)
            o.amqp_conn
            (next_reply s)
            (next_envelope s)
            (x, after_message s)
          ≡ ret (y, u)
        → Runs cs y u kept x' t
        → Runs (c ∷ cs) x s kept x' t
    -- The backend is not activated: one message is lost, and the source is removed.
    leaves :
        {c : Conditions} {cs : List Conditions} {x : S} {s : Net r}
        → is_ready c s ≡ true
        → is_timeout (next_reply s) ≡ false
        → o.activated ≡ false
        → Runs (c ∷ cs) x s false x (after_message s)

  -- An activated backend keeps its source, and one that is not handles nothing.
  Runs-kept :
      {cs : List Conditions} {x x' : S} {s t : Net r} {kept : Bool}
      → o.activated ≡ true
      → Runs cs x s kept x' t
      → kept ≡ true
  Runs-kept on ends = refl
  Runs-kept on (idles ready rest) = Runs-kept on rest
  Runs-kept on (waits ready late rest) = Runs-kept on rest
  Runs-kept on (handles ready whole active ran rest) = Runs-kept on rest
  Runs-kept on (leaves ready whole off) = absurd (ground arith)

  Runs-same :
      {cs : List Conditions} {x x' : S} {s t : Net r} {kept : Bool}
      → o.activated ≡ false
      → Runs cs x s kept x' t
      → x ≡ x'
  Runs-same off ends = refl
  Runs-same off (idles ready rest) = Runs-same off rest
  Runs-same off (waits ready late rest) = Runs-same off rest
  Runs-same off (handles ready whole active ran rest) = absurd (ground arith)
  Runs-same off (leaves ready whole inactive) = refl

  iterations_lem :
      (cs : List Conditions) (x x' : S) (s t : Net r) (kept : Bool)
      → iterations r conn (some (process_amqp_message g r user_command o)) cs (x, s)
        ≡ ret (kept, x', t)
      → Runs cs x s kept x' t
  unfolding iterations iteration source_prepare source_check source_dispatch process_amqp_message
  iterations_lem [] x x' s t kept h =
      let same : (true ≡ kept) × (x ≡ x') × (s ≡ t) = ground arith in
      subst (λ k. Runs [] x s k x' t) same.0
        (subst (λ y. Runs [] x s true y t) same.1 (subst (λ u. Runs [] x s true x u) same.2 ends))
  iterations_lem (c ∷ cs) x x' s t kept h = elim (Bool-cases (is_ready c s)) [
    | inr idle ↦ idles idle (iterations_lem cs x x' s t kept (ground arith))
    | inl ready ↦ elim (Bool-cases (is_timeout (next_reply s))) [
      | inl late ↦ waits ready late (iterations_lem cs x x' (after_message s) t kept (ground arith))
      | inr whole ↦ elim (Bool-cases o.activated) [
        | inr off ↦
            let same : (false ≡ kept) × (x ≡ x') × (after_message s ≡ t) = ground arith in
            subst (λ k. Runs (c ∷ cs) x s k x' t) same.0
              (subst (λ y. Runs (c ∷ cs) x s false y t) same.1
                (subst (λ u. Runs (c ∷ cs) x s false x u) same.2 (leaves ready whole off)))
        | inl on ↦
            elim (Run-cases (
              handle_message g r (process_json_message g r user_command) o.amqp_conn (next_reply s)
                (next_envelope s) (x, after_message s))) [
                  | inr (f, stopped) ↦ absurd (ground arith)
                  | inl ((y, u), ran) ↦
                      handles ready whole on ran (iterations_lem cs y x' u t kept (ground arith))
                ]
      ]
    ]
  ]

  -- Iterations of the main loop with the source of an edge that return have gone as `Runs` says:
  -- one takes a message exactly if there is something to read; a message that has come whole is
  -- handled, and the source kept, if the backend is activated, and it is lost, and the source
  -- removed, if it is not; the source is also kept where nothing came. So the source of an activated
  -- backend outlives any number of iterations, and a backend that is not activated changes no data.
  pub iterations-Runs :
      (cs : List Conditions) (x x' : S) (s t : Net r) (kept : Bool)
      → iterations r conn (some (process_amqp_message g r user_command o)) cs (x, s)
        ≡ ret (kept, x', t)
      → Runs cs x s kept x' t
        × ((o.activated ≡ true) × (kept ≡ true) ⊎ (o.activated ≡ false) × (x ≡ x'))
  iterations-Runs cs x x' s t kept h =
      let runs = iterations_lem cs x x' s t kept h in
      (
        runs,
        elim (Bool-cases o.activated) [
          | inl on ↦ inl (on, Runs-kept on runs)
          | inr off ↦ inr (off, Runs-same off runs)
        ],
      )
