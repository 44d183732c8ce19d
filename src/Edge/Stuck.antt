-- ===== src/Edge/Stuck.antt =====
-- What a failed delisting does to an edge (chamge/edge.c, chamge/node.c).
use chamge.Prelude.{◌≡◌, ◌≢◌, refl, sym, subst, Option, none, Text, ret, arith}
use chamge.Types.{Return, fail, null}
use chamge.Glib.{Glib}
use chamge.Amqp.{Rabbit}
use chamge.Backend.{Config}
use chamge.Node.{Node, Handler}
use chamge.Node.Calls.{Call, delists, call, Reach}
use chamge.Node.Frozen.{IsFrozen, Reach_of_IsFrozen, call_of_IsFrozen, delists-fail}
use chamge.Edge.{EdgeData, edge_class, edge_enroll, edge_delist, edge_activate, edge_deactivate}

module _ (g : Glib) (r : Rabbit) (cfg : Config) where
  pub IsFrozen-of_no_backend :
      (n : Node (EdgeData r))
      → n.state ≢ null
      → n.self.edge_backend ≡ none
      → IsFrozen (edge_class g r cfg) n
  unfolding edge_class edge_delist edge_activate edge_deactivate
  IsFrozen-of_no_backend n placed empty = record {
    placed = placed;
    enrolling = (edge_enroll g r cfg, refl);
    delisting = (edge_delist g r cfg, refl, ground arith);
    activating = (edge_activate g r cfg, refl, ground arith);
    deactivating = (edge_deactivate g r cfg, refl, ground arith);
  }

  edge_delist-clears :
      (uid : Option Text) (d e : EdgeData r) (x : Return)
      → edge_delist g r cfg uid d ≡ ret (x, e)
      → e.edge_backend ≡ none
  unfolding edge_delist
  edge_delist-clears uid d e x h = ground arith

  -- A delisting that fails drops the backend and keeps the state. If that was not NULL, nothing
  -- changes the edge any more: every later call returns CHAMGE_RETURN_FAIL, and every history of
  -- calls and timers leaves it as it is, whatever the handlers of "state-changed" do.
  pub stuck_after_failed_delist :
      (h : Handler (EdgeData r)) (n m k : Node (EdgeData r)) (c : Call)
      → n.state ≢ null
      → call g (edge_class g r cfg) h delists n ≡ ret (fail, m)
      → Reach g (edge_class g r cfg) h m k
      → (k ≡ m) × (m.state ≡ n.state) × (call g (edge_class g r cfg) h c k ≡ ret (fail, k))
  unfolding edge_class
  stuck_after_failed_delist h n m k c placed q reach =
      let (s, ran, e) = delists-fail g (edge_class g r cfg) h (edge_delist g r cfg) n m refl q in
      let same : m.state ≡ n.state = ground arith in
      let frozen =
        IsFrozen-of_no_backend m (ground arith)
          (ground (arith, edge_delist-clears n.uid n.self s fail ran)) in
      let still = Reach_of_IsFrozen g (edge_class g r cfg) h frozen reach in
      (
        still,
        same,
        call_of_IsFrozen g (edge_class g r cfg) h c k
            (subst (IsFrozen (edge_class g r cfg)) (sym still) frozen),
      )
