-- ===== src/Agent/Commands.antt =====
-- User commands that come over D-Bus, and the start of the agent (agent/arbiter-agent.c).
use chamge.Prelude.{
  ◌≡◌, ◌⊎◌, inl, inr, true, false, Option, some, ◌++◌, Text, codes, Run, ret, ◌>>=◌, arith,
  if◌then◌else◌, Run-cases, Bool-cases,
}
use chamge.Types.{Return, ok, fail, activated}
use chamge.Glib.{Glib}
use chamge.Backend.Arbiter.{result_text}
use chamge.Node
use chamge.Node.{Node, Class, Handler, Reply, get_state}
use chamge.Node.Calls.{activates, call, IsQuiet}
use chamge.Node.Machine.{call-follows-goal}
use chamge.Agent.{
  Agent, is_enrolled, for_edge, refusal, refused, or_null, dbus_reply, handle_user_command,
  must_be_ok, enroll, activate, startup,
}

module _ {S : Type 0} (g : Glib) (user_command : Text → S → Run (Reply × S)) where
  -- A command that names its receiver is refused, without a call of the arbiter and with a text
  -- that says so, if the receiver is not among the edges (for the methods "streamingStart",
  -- "streamingStop" and "getUrl") or the hubs (for any other) that are enrolled; and it is handed
  -- to the arbiter, whose reply is given back, if it is among them.
  pub handle_user_command_routes :
      (a : Agent) (cmd : Text) (doc : g.Document) (method id : Option Text) (s : S)
      → g.load cmd ≡ some doc
      → g.member doc (codes "method") ≡ some method
      → g.member doc (codes "to") ≡ some id
      → let list = if for_edge method then a.edges else a.hubs in
        (is_enrolled list id ≡ true)
          × (handle_user_command g user_command a cmd s
              ≡ (user_command cmd s >>= λ (p, s'). ret (dbus_reply p, s')))
        ⊎ (is_enrolled list id ≡ false)
          × (text : Text) × (handle_user_command g user_command a cmd s
              ≡ ret (record { status = fail; response = some text }, s))
  unfolding handle_user_command refused refusal
  handle_user_command_routes a cmd doc method id s l m t = elim (Bool-cases (for_edge method)) [
    | inl edge ↦ elim (Bool-cases (is_enrolled a.edges id)) [
      | inl known ↦ inl (ground arith)
      | inr unknown ↦ inr (
        ground arith,
        result_text (codes "no edge is enrolled with edge id " ++ or_null id),
        ground arith,
      )
    ]
    | inr hub ↦ elim (Bool-cases (is_enrolled a.hubs id)) [
      | inl known ↦ inl (ground arith)
      | inr unknown ↦ inr (
        ground arith,
        result_text (codes "no hub is enrolled with hub id " ++ or_null id),
        ground arith,
      )
    ]
  ]

module _ {S : Type 0} (g : Glib) (klass : Class S) (h : Handler S) (quiet : IsQuiet h) where
  activate-activated :
      (n m : Node S) (x : Return) → activate g klass h n ≡ ret (x, m) → x ≡ ok → m.state ≡ activated
  unfolding activate must_be_ok call
  activate-activated n m x e fine = elim (Run-cases (get_state n)) [
    | inr (f, stopped) ↦ absurd (ground arith)
    | inl ((state, k), read) ↦ elim (Run-cases (Node.activate g klass h k)) [
      | inr (f, stopped) ↦ ground arith
      | inl ((y, j), ran) ↦ ground (arith, call-follows-goal g klass h quiet activates k j y ran)
    ]
  ]

  -- A start that returns leaves the arbiter ACTIVATED, if no handler changes the state.
  pub startup-activated : (n m : Node S) → startup g klass h n ≡ ret m → m.state ≡ activated
  unfolding startup must_be_ok
  startup-activated n m e = elim (Run-cases (enroll g klass h n)) [
    | inr (f, stopped) ↦ absurd (ground arith)
    | inl ((x, k), first) ↦ elim (Run-cases (activate g klass h k)) [
      | inr (f, stopped) ↦ ground arith
      | inl ((y, j), second) ↦ ground (arith, activate-activated k j y second)
    ]
  ]
