-- ===== src/Agent/Process.antt =====
-- The process of the arbiter agent, from its options to its arbiter (agent/arbiter-agent.c).
use chamge.Prelude.{ℕ, Option, some, Text, Run, ret, ◌>>=◌}
use chamge.Types.{BackendKind}
use chamge.Glib.{Glib}
use chamge.Amqp.{Rabbit, Net}
use chamge.Backend.{Config}
use chamge.Node.{Node}
use chamge.Node.Signal.{silent}
use chamge.Arbiter.{ArbiterData, arbiter_class}
use chamge.Arbiter.Life.{arbiter_new_full}
use chamge.Agent.{startup}
use chamge.Options.{LocalOptions, Verdict, exits, continues, handle_local_options, initial_backend}

module _ (r : Rabbit) where
  pub data Process : Type 0 where
    exited : ℕ → Process
    running : Node (ArbiterData r) → Process

module _ (g : Glib) (r : Rabbit) (cfg : Config) (fuel : ℕ) where
  -- chamge_arbiter_agent_startup; nothing is connected to "state-changed".
  unfoldable pub start_arbiter : BackendKind → Net r → Run (Node (ArbiterData r))
  start_arbiter kind s =
      let (uuid, w) = r.uuid_string_random s.world in
      arbiter_new_full r (some (g.sha256_hex uuid)) kind (record s { world = w })
      >>= startup g (arbiter_class g r cfg fuel) silent

  -- What GApplication does with the result of the options, where it comes to start the agent.
  unfoldable pub proceed : Verdict → Net r → Run (Process r)
  proceed (exits n) s = ret (exited n)
  proceed (continues kind) s = start_arbiter kind s >>= λ n. ret (running n)

  unfoldable pub main : (Text → Option BackendKind) → LocalOptions → Net r → Run (Process r)
  unfolding proceed
  main value_by_nick options s =
      proceed (handle_local_options value_by_nick options initial_backend) s
