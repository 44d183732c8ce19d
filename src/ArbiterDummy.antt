-- ===== src/ArbiterDummy.antt =====
-- examples/arbiter-dummy.c: an arbiter that is driven by keys. The thread that reads them and the
-- main loop, which runs the callbacks of the arbiter, take turns, as the list of inputs says. The
-- terminal and the handlers of Unix signals are left out.
pub mod Turn
pub mod Session
pub mod Tests
use chamge.Prelude.{
  ℕ, ◌==◌, Bool, true, false, Option, none, some, List, [], ◌∷◌, ◌++◌, Text, codes, if◌then◌else◌,
  Run, ret, stop, aborted, null_read, ◌>>=◌,
}
use chamge.Types.{Return, ok, BackendKind, amqp}
use chamge.Glib.{Glib}
use chamge.Amqp.{Rabbit, Net}
use chamge.Backend.{Config}
use chamge.Node.{Node, Class, Reply, enroll, activate, deactivate, delist, user_command}
use chamge.Node.Signal.{silent}
use chamge.Arbiter.{ArbiterData, arbiter_class}
use chamge.Arbiter.Life.{arbiter_new_full}

-- A key that was read, or a signal of the arbiter.
pub data Input : Type 0 where
  key : ℕ → Input
  edge_enrolled edge_delisted hub_enrolled hub_delisted : Text → Input

-- ArbiterContext. The newest id stands first; no id is ever taken out.
pub record Context (S : Type 0) : Type 0 where
  pub arbiter : Node S
  pub edges : List Text
  pub hubs : List Text

-- The id is printed with `%s`: it is not escaped.
pub command_text : Text → Text → Text
command_text id method =
    codes "{\"to\":\"" ++ (id ++ (codes "\",\"method\":\"" ++ (method ++ codes "\"}")))

-- `g_assert (ret == CHAMGE_RETURN_OK)`.
asserted : {S : Type 0} → Return × Node S → Run (Node S)
asserted (ok, n) = ret n
asserted (x, n) = stop aborted

module _ {S : Type 0} (g : Glib) (klass : Class S) where
  -- After a command that failed, the message of the error is printed, also if none is set.
  pub reported : Reply → Context S → Run (Context S)
  reported p c = elim p.result [
    | ok ↦ ret c
    | _ ↦ elim p.error [ none ↦ stop null_read | some e ↦ ret c ]
  ]

  -- A command to the first id of the list, if there is one.
  pub send_to_first : List Text → Text → Context S → Run (Context S)
  unfolding reported
  send_to_first [] method c = ret c
  send_to_first (id ∷ ids) method c =
      user_command g klass silent (command_text id method) c.arbiter >>= λ (p, n).
      reported p (record c { arbiter = n })

  goes_on : Run (Context S) → Run (Bool × Context S)
  goes_on m = m >>= λ c. ret (false, c)

  leave : Context S → Run (Bool × Context S)
  unfolding asserted
  leave c =
      deactivate g klass silent c.arbiter >>= asserted >>= λ n. ret (true, record c { arbiter = n })

  -- One turn of the loop of do_user_command: the Boolean is `quit`.
  pub press : ℕ → Context S → Run (Bool × Context S)
  unfolding send_to_first goes_on leave
  press k c =
      if k == 115
      then goes_on (send_to_first c.edges (codes "streamingStart") c)
      else if k == 116
      then goes_on (send_to_first c.edges (codes "streamingStop") c)
      else if k == 114
      then goes_on (send_to_first c.hubs (codes "recordingStart") c)
      else if k == 120
      then goes_on (send_to_first c.hubs (codes "recordingStop") c)
      else if k == 113
      then leave c
      else ret (false, c)

  -- edge_enrolled_cb and its siblings: those for a delisting only print.
  pub react : Input → Context S → Run (Bool × Context S)
  unfolding press
  react (key k) c = press k c
  react (edge_enrolled id) c = ret (false, record c { edges = id ∷ c.edges })
  react (edge_delisted id) c = ret (false, c)
  react (hub_enrolled id) c = ret (false, record c { hubs = id ∷ c.hubs })
  react (hub_delisted id) c = ret (false, c)

  -- do_user_command and the main loop: `true` once the loop is left, `false` if it still runs when
  -- there are no more inputs.
  pub do_user_command : List Input → Context S → Run (Bool × Context S)
  unfolding react
  do_user_command [] c = ret (false, c)
  do_user_command (e ∷ es) c =
      react e c >>= λ (quit, d). if quit then ret (true, d) else do_user_command es d

  pub started : Node S → Run (Context S)
  unfolding asserted
  started n = enroll g klass silent false 0 n >>= asserted >>= λ m.
      activate g klass silent m >>= asserted >>= λ k.
      ret (record { arbiter = k; edges = []; hubs = [] })

  -- The end of `main`: the exit status is 1.
  ended : Bool × Context S → Run (Option (ℕ × Context S))
  unfolding asserted
  ended (false, c) = ret none
  ended (true, c) =
      delist g klass silent c.arbiter >>= asserted >>= λ n. ret (some (1, record c { arbiter = n }))

  -- `main` with the arbiter that it made: the exit status, if it exits.
  pub serve : List Input → Node S → Run (Option (ℕ × Context S))
  unfolding started do_user_command ended
  serve es n = started n >>= do_user_command es >>= ended

-- `main`, over the inputs that come.
pub main :
    (g : Glib) (r : Rabbit)
    → Config
    → ℕ
    → List Input
    → Net r
    → Run (Option (ℕ × Context (ArbiterData r)))
unfolding serve
main g r cfg fuel es s =
    arbiter_new_full r (some (g.sha256_hex (codes "arbiter-987-123"))) amqp s
    >>= serve g (arbiter_class g r cfg fuel) es
