-- ===== src/ArbiterDummy/Session.antt =====
-- A session of examples/arbiter-dummy.c: whom the keys address, and how the program ends.
use chamge.Prelude.{
  ℕ, ◌≡◌, ◌⊎◌, inl, inr, refl, sym, ap, ◌∙◌, Bool, true, false, ◌||◌, Option, none, some, List, [],
  ◌∷◌, Text, codes, Run, ret, ◌>>=◌, arith, Run-cases, Bool-cases,
}
use chamge.Types.{null, activated}
use chamge.Glib.{Glib}
use chamge.Node.{Node, Class, user_command, activate, delist, enroll}
use chamge.Node.Calls.{call, activates, delists}
use chamge.Node.Machine.{call-follows-goal}
use chamge.Node.Signal.{silent, silent-IsQuiet}
use chamge.ArbiterDummy.{
  Context, Input, key, edge_enrolled, edge_delisted, hub_enrolled, hub_delisted, command_text,
  asserted, reported, send_to_first, goes_on, press, react, do_user_command, started, ended, serve,
}
use chamge.ArbiterDummy.Turn.{first, newest_edge, newest_hub, is_quit, state_after, react_keeps}

abbrev pub has_quit : List Input → Bool
has_quit [] = false
has_quit (e ∷ es) = is_quit e || has_quit es

module _ {S : Type 0} (g : Glib) (klass : Class S) where
  newest_edge_cons :
      (i : Input) (es : List Input) (old : Option Text)
      → newest_edge (i ∷ es) old ≡ newest_edge es (newest_edge (i ∷ []) old)
  newest_edge_cons (key k) es old = refl
  newest_edge_cons (edge_enrolled id) es old = refl
  newest_edge_cons (edge_delisted id) es old = refl
  newest_edge_cons (hub_enrolled id) es old = refl
  newest_edge_cons (hub_delisted id) es old = refl

  newest_hub_cons :
      (i : Input) (es : List Input) (old : Option Text)
      → newest_hub (i ∷ es) old ≡ newest_hub es (newest_hub (i ∷ []) old)
  newest_hub_cons (key k) es old = refl
  newest_hub_cons (edge_enrolled id) es old = refl
  newest_hub_cons (edge_delisted id) es old = refl
  newest_hub_cons (hub_enrolled id) es old = refl
  newest_hub_cons (hub_delisted id) es old = refl

  -- The loop ends exactly at the key "q", in the state ENROLLED, and runs in the state ACTIVATED.
  loop_keeps :
      (es : List Input) (quit : Bool) (c d : Context S)
      → c.arbiter.state ≡ activated
      → do_user_command g klass es c ≡ ret (quit, d)
      → (quit ≡ has_quit es) × (d.arbiter.state ≡ state_after quit)
  unfolding do_user_command
  loop_keeps [] quit c d on e = ground arith
  loop_keeps (i ∷ es) quit c d on e = elim (Run-cases (react g klass i c)) [
    | inr (f, stopped) ↦ absurd (ground arith)
    | inl ((now, x), ran) ↦
        let turn = react_keeps g klass i now c x on ran in
        elim (Bool-cases now) [
          | inl left ↦ ground arith
          | inr stays ↦ ground (arith, loop_keeps es quit x d (turn.1 ∙ ap state_after stays))
        ]
  ]

  -- While the loop runs, its lists begin with the last that enrolled.
  loop_newest :
      (es : List Input) (c d : Context S)
      → c.arbiter.state ≡ activated
      → do_user_command g klass es c ≡ ret (false, d)
      → (first d.edges ≡ newest_edge es (first c.edges))
        × (first d.hubs ≡ newest_hub es (first c.hubs))
  unfolding do_user_command
  loop_newest [] c d on e = ground arith
  loop_newest (i ∷ es) c d on e = elim (Run-cases (react g klass i c)) [
    | inr (f, stopped) ↦ absurd (ground arith)
    | inl ((now, x), ran) ↦
        let turn = react_keeps g klass i now c x on ran in
        elim (Bool-cases now) [
          | inl left ↦ absurd (ground arith)
          | inr stays ↦ ground (
            arith,
            loop_newest es x d (turn.1 ∙ ap state_after stays),
            newest_edge_cons i es (first c.edges),
            newest_hub_cons i es (first c.hubs),
          )
        ]
  ]

  started_activated :
      (n : Node S) (c : Context S)
      → started g klass n ≡ ret c
      → (c.arbiter.state ≡ activated) × (c.edges ≡ []) × (c.hubs ≡ [])
  unfolding started asserted call
  started_activated n c e = elim (Run-cases (enroll g klass silent false 0 n)) [
    | inr (f, stopped) ↦ absurd (ground arith)
    | inl ((x, m), ran) ↦ elim (Run-cases (activate g klass silent m)) [
      | inr (f, stopped) ↦ absurd (ground arith)
      | inl ((y, k), went) ↦
          ground (arith, call-follows-goal g klass silent silent-IsQuiet activates m k y went)
    ]
  ]

  -- The command that a key sends to the one with the given id, if there is one.
  abbrev pub addressed : Option Text → Text → Context S → Run (Bool × Context S)
  addressed none method d = ret (false, d)
  addressed (some id) method d =
      user_command g klass silent (command_text id method) d.arbiter >>= λ (p, n).
      reported g klass p (record d { arbiter = n }) >>= λ x. ret (false, x)

  addressed-first :
      (ids : List Text) (method : Text) (d : Context S)
      → goes_on g klass (send_to_first g klass ids method d) ≡ addressed (first ids) method d
  unfolding goes_on send_to_first
  addressed-first [] method d = refl
  addressed-first (id ∷ ids) method d =
      elim (Run-cases (user_command g klass silent (command_text id method) d.arbiter)) [
        | inr (f, stopped) ↦ rw stopped
        | inl ((p, n), ran) ↦ rw ran
      ]

  -- Let the program have enrolled and activated its arbiter, and its loop still run after some keys
  -- and signals. Then the keys "s" and "t" send the commands "streamingStart" and "streamingStop"
  -- to the edge that enrolled last, and "r" and "x" the commands "recordingStart" and
  -- "recordingStop" to the hub that enrolled last, whether it was delisted since or not; if none
  -- has enrolled, they do nothing.
  pub keys_address_newest :
      (es : List Input) (n : Node S) (c d : Context S)
      → started g klass n ≡ ret c
      → do_user_command g klass es c ≡ ret (false, d)
      → (press g klass 115 d ≡ addressed (newest_edge es none) (codes "streamingStart") d)
        × (press g klass 116 d ≡ addressed (newest_edge es none) (codes "streamingStop") d)
        × (press g klass 114 d ≡ addressed (newest_hub es none) (codes "recordingStart") d)
        × (press g klass 120 d ≡ addressed (newest_hub es none) (codes "recordingStop") d)
  unfolding press
  keys_address_newest es n c d begun e =
      let start = started_activated n c begun in
      let (edge, hub) = loop_newest es c d start.0 e in
      let edge' : first d.edges ≡ newest_edge es none =
        edge ∙ ap (λ l. newest_edge es (first l)) start.1 in
      let hub' : first d.hubs ≡ newest_hub es none =
        hub ∙ ap (λ l. newest_hub es (first l)) start.2 in
      (
        addressed-first d.edges (codes "streamingStart") d
            ∙ ap (λ o. addressed o (codes "streamingStart") d) edge',
        addressed-first d.edges (codes "streamingStop") d
            ∙ ap (λ o. addressed o (codes "streamingStop") d) edge',
        addressed-first d.hubs (codes "recordingStart") d
            ∙ ap (λ o. addressed o (codes "recordingStart") d) hub',
        addressed-first d.hubs (codes "recordingStop") d
            ∙ ap (λ o. addressed o (codes "recordingStop") d) hub',
      )

  ended_status :
      (es : List Input) (quit : Bool) (d : Context S) (o : Option (ℕ × Context S))
      → quit ≡ has_quit es
      → ended g klass (quit, d) ≡ ret o
      → (o ≡ none) × (has_quit es ≡ false)
        ⊎ ((c : Context S) × (o ≡ some (1, c)) × (has_quit es ≡ true) × (c.arbiter.state ≡ null))
  unfolding ended asserted call
  ended_status es false d o same e = inl (ground arith, sym same)
  ended_status es true d o same e = elim (Run-cases (delist g klass silent d.arbiter)) [
    | inr (f, stopped) ↦ absurd (ground arith)
    | inl ((x, n), ran) ↦
        let went = call-follows-goal g klass silent silent-IsQuiet delists d.arbiter n x ran in
        inr (record d { arbiter = n }, ground arith, sym same, ground arith)
  ]

  -- If the program, given a new arbiter and some keys and signals, does not stop at an assertion or
  -- a NULL pointer, then either no key was "q" and its loop still runs, or one was, the exit status
  -- is 1, and the arbiter is in the state NULL.
  serve-exits :
      (es : List Input) (n : Node S) (o : Option (ℕ × Context S))
      → serve g klass es n ≡ ret o
      → (o ≡ none) × (has_quit es ≡ false)
        ⊎ ((c : Context S) × (o ≡ some (1, c)) × (has_quit es ≡ true) × (c.arbiter.state ≡ null))
  unfolding serve
  serve-exits es n o e = elim (Run-cases (started g klass n)) [
    | inr (f, stopped) ↦ absurd (ground arith)
    | inl (c, begun) ↦ elim (Run-cases (do_user_command g klass es c)) [
      | inr (f, stopped) ↦ absurd (ground arith)
      | inl ((quit, d), ran) ↦
          let (same, at) = loop_keeps es quit c d (started_activated n c begun).0 ran in
          ended_status es quit d o same (ground arith)
    ]
  ]
