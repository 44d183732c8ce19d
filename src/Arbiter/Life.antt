-- ===== src/Arbiter/Life.antt =====
-- The making and disposal of an arbiter (chamge/arbiter.c).
use chamge.Prelude.{◌≡◌, refl, Option, none, some, Text, Run, ret, arith}
use chamge.Types.{BackendKind, unknown}
use chamge.Amqp.{Rabbit, Net}
use chamge.Node.{Node, init}
use chamge.Node.Life.{set_backend, new_full, new, node_dispose, new_full-init}
use chamge.Arbiter.{ArbiterData, clear_backend}
use chamge.Arbiter.Serving.{IsServing}

module _ (r : Rabbit) where
  pub fresh : Net r → ArbiterData r
  fresh s = record { kind = unknown; arbiter_backend = none; net = s }

  kind_of : ArbiterData r → BackendKind
  kind_of d = d.kind

  assign : BackendKind → ArbiterData r → ArbiterData r
  assign k d = record d { kind = k }

  pub arbiter_set_property : BackendKind → ArbiterData r → Run (ArbiterData r)
  unfolding kind_of assign set_backend
  arbiter_set_property k d = set_backend kind_of assign k d

  unfoldable pub arbiter_new_full : Option Text → BackendKind → Net r → Run (Node (ArbiterData r))
  unfolding fresh kind_of assign new_full
  arbiter_new_full uid k s = new_full kind_of assign uid k (fresh s)

  pub arbiter_new : Option Text → Net r → Run (Node (ArbiterData r))
  unfolding fresh kind_of assign new
  arbiter_new uid s = new kind_of assign uid (fresh s)

  pub arbiter_dispose : Node (ArbiterData r) → Node (ArbiterData r)
  unfolding node_dispose
  arbiter_dispose n = node_dispose (record n { self = clear_backend r n.self })

  pub arbiter_new_full-init :
      (uid : Text) (k : BackendKind) (s : Net r)
      → arbiter_new_full (some uid) k s
        ≡ ret (
            init {S = ArbiterData r}
              (some uid)
              (record { kind = k; arbiter_backend = none; net = s }))
  unfolding arbiter_new_full fresh kind_of assign init
  arbiter_new_full-init uid k s = new_full-init kind_of assign uid k (fresh s) refl

  -- An arbiter that is new serves.
  pub init-IsServing :
      (uid : Text) (k : BackendKind) (s : Net r)
      → let n =
          init {S = ArbiterData r}
            (some uid)
            (record { kind = k; arbiter_backend = none; net = s }) in
        IsServing r k n.state n.self
  unfolding init
  init-IsServing uid k s = record {
    kept = refl;
    serving = refl;
    has_backend = λ away. absurd (ground arith);
    speaking = λ b has. absurd (ground arith);
  }
