-- ===== src/ArbiterDummy/Turn.antt =====
-- One turn of examples/arbiter-dummy.c: what a key or a signal changes.
use chamge.Prelude.{
  ℕ, ◌≡◌, inl, inr, ◌==◌, Bool, true, false, Option, none, some, List, [], ◌∷◌, Text, codes,
  if◌then◌else◌, ret, ◌>>=◌, arith, Run-cases,
}
use chamge.Types.{Return, ok, NodeState, enrolled, activated}
use chamge.Glib.{Glib}
use chamge.Node.{Node, Class, Reply, user_command, deactivate}
use chamge.Node.Calls.{call, deactivates}
use chamge.Node.Machine.{call-follows-goal}
use chamge.Node.Signal.{silent, silent-IsQuiet}
use chamge.ArbiterDummy.{
  Context, Input, key, edge_enrolled, edge_delisted, hub_enrolled, hub_delisted, command_text,
  asserted, reported, send_to_first, goes_on, leave, press, react,
}

abbrev pub first : List Text → Option Text
first [] = none
first (id ∷ ids) = some id

-- The last id that enrolled, where `old` was before; a delisting does not count.
abbrev pub newest_edge : List Input → Option Text → Option Text
newest_edge [] old = old
newest_edge (edge_enrolled id ∷ es) old = newest_edge es (some id)
newest_edge (e ∷ es) old = newest_edge es old

abbrev pub newest_hub : List Input → Option Text → Option Text
newest_hub [] old = old
newest_hub (hub_enrolled id ∷ es) old = newest_hub es (some id)
newest_hub (e ∷ es) old = newest_hub es old

-- Whether an input is the key "q".
abbrev pub is_quit : Input → Bool
is_quit (key k) = k == 113
is_quit e = false

abbrev pub state_after : Bool → NodeState
state_after quit = if quit then enrolled else activated

module _ {S : Type 0} (g : Glib) (klass : Class S) where
  user_command_keeps :
      (cmd : Text) (n m : Node S) (p : Reply)
      → user_command g klass silent cmd n ≡ ret (p, m)
      → m.state ≡ n.state
  unfolding user_command
  user_command_keeps cmd n m p e = ground arith

  send_keeps :
      (ids : List Text) (method : Text) (c d : Context S)
      → send_to_first g klass ids method c ≡ ret d
      → (d.arbiter.state ≡ c.arbiter.state) × (d.edges ≡ c.edges) × (d.hubs ≡ c.hubs)
  unfolding send_to_first reported
  send_keeps [] method c d e = ground arith
  send_keeps (id ∷ ids) method c d e =
      elim (Run-cases (user_command g klass silent (command_text id method) c.arbiter)) [
        | inr (f, stopped) ↦ absurd (ground arith)
        | inl ((p, n), ran) ↦
            let kept = user_command_keeps (command_text id method) c.arbiter n p ran in ground arith
      ]

  asserted_ok : (x : Return) (n m : Node S) → asserted (x, n) ≡ ret m → (x ≡ ok) × (m ≡ n)
  unfolding asserted
  asserted_ok x n m e = ground arith

  deactivated_keeps :
      (n m : Node S) → (deactivate g klass silent n >>= asserted) ≡ ret m → m.state ≡ enrolled
  unfolding asserted call
  deactivated_keeps n m e = elim (Run-cases (deactivate g klass silent n)) [
    | inr (f, stopped) ↦ absurd (ground arith)
    | inl ((x, k), ran) ↦
        ground (arith, call-follows-goal g klass silent silent-IsQuiet deactivates n k x ran)
  ]

  -- What every turn of the loop keeps.
  abbrev IsTurn : Bool → Bool → Context S → Context S → Type 0
  IsTurn quit quits c d =
      (quit ≡ quits)
      × (d.arbiter.state ≡ state_after quit)
      × (d.edges ≡ c.edges)
      × (d.hubs ≡ c.hubs)

  sends_keeps :
      (ids : List Text) (method : Text) (quit : Bool) (c d : Context S)
      → c.arbiter.state ≡ activated
      → goes_on g klass (send_to_first g klass ids method c) ≡ ret (quit, d)
      → IsTurn quit false c d
  unfolding goes_on
  sends_keeps ids method quit c d on e = elim (Run-cases (send_to_first g klass ids method c)) [
    | inr (f, stopped) ↦ absurd (ground arith)
    | inl (x, ran) ↦ ground (arith, send_keeps ids method c x ran)
  ]

  quits_keeps :
      (quit : Bool) (c d : Context S) → leave g klass c ≡ ret (quit, d) → IsTurn quit true c d
  unfolding leave
  quits_keeps quit c d e = elim (Run-cases (deactivate g klass silent c.arbiter >>= asserted)) [
    | inr (f, stopped) ↦ absurd (ground arith)
    | inl (n, ran) ↦ ground (arith, deactivated_keeps c.arbiter n ran)
  ]

  press_keeps :
      (k : ℕ) (quit : Bool) (c d : Context S)
      → c.arbiter.state ≡ activated
      → press g klass k c ≡ ret (quit, d)
      → IsTurn quit (k == 113) c d
  unfolding press
  press_keeps k quit c d on e = ground (
    arith,
    sends_keeps c.edges (codes "streamingStart") quit c d on,
    sends_keeps c.edges (codes "streamingStop") quit c d on,
    sends_keeps c.hubs (codes "recordingStart") quit c d on,
    sends_keeps c.hubs (codes "recordingStop") quit c d on,
    quits_keeps quit c d,
  )

  pub react_keeps :
      (i : Input) (quit : Bool) (c d : Context S)
      → c.arbiter.state ≡ activated
      → react g klass i c ≡ ret (quit, d)
      → (quit ≡ is_quit i)
        × (d.arbiter.state ≡ state_after quit)
        × (first d.edges ≡ newest_edge (i ∷ []) (first c.edges))
        × (first d.hubs ≡ newest_hub (i ∷ []) (first c.hubs))
  unfolding react
  react_keeps (key k) quit c d on e = ground (arith, press_keeps k quit c d on e)
  react_keeps (edge_enrolled id) quit c d on e = ground arith
  react_keeps (edge_delisted id) quit c d on e = ground arith
  react_keeps (hub_enrolled id) quit c d on e = ground arith
  react_keeps (hub_delisted id) quit c d on e = ground arith
