-- ===== src/Hub/Stuck.antt =====
-- What a failed delisting does to a hub (chamge/hub.c, chamge/node.c).
use chamge.Prelude.{◌≡◌, ◌≢◌, refl, sym, subst, Option, none, Text, ret, arith}
use chamge.Types.{Return, fail, null}
use chamge.Glib.{Glib}
use chamge.Amqp.{Rabbit}
use chamge.Backend.{Config}
use chamge.Node.{Node, Handler}
use chamge.Node.Calls.{Call, delists, call, Reach}
use chamge.Node.Frozen.{IsFrozen, Reach_of_IsFrozen, call_of_IsFrozen, delists-fail}
use chamge.Hub.{HubData, hub_class, hub_enroll, hub_delist, hub_activate, hub_deactivate}

module _ (g : Glib) (r : Rabbit) (cfg : Config) where
  pub IsFrozen-of_no_backend :
      (n : Node (HubData r))
      → n.state ≢ null
      → n.self.hub_backend ≡ none
      → IsFrozen (hub_class g r cfg) n
  unfolding hub_class hub_delist hub_activate hub_deactivate
  IsFrozen-of_no_backend n placed empty = record {
    placed = placed;
    enrolling = (hub_enroll g r cfg, refl);
    delisting = (hub_delist g r cfg, refl, ground arith);
    activating = (hub_activate g r cfg, refl, ground arith);
    deactivating = (hub_deactivate g r cfg, refl, ground arith);
  }

  hub_delist-clears :
      (uid : Option Text) (d e : HubData r) (x : Return)
      → hub_delist g r cfg uid d ≡ ret (x, e)
      → e.hub_backend ≡ none
  unfolding hub_delist
  hub_delist-clears uid d e x h = ground arith

  -- A delisting that fails drops the backend and keeps the state. If that was not NULL, nothing
  -- changes the hub any more: every later call returns CHAMGE_RETURN_FAIL, and every history of
  -- calls and timers leaves it as it is, whatever the handlers of "state-changed" do.
  pub hub_stuck_after_failed_delist :
      (h : Handler (HubData r)) (n m k : Node (HubData r)) (c : Call)
      → n.state ≢ null
      → call g (hub_class g r cfg) h delists n ≡ ret (fail, m)
      → Reach g (hub_class g r cfg) h m k
      → (k ≡ m) × (m.state ≡ n.state) × (call g (hub_class g r cfg) h c k ≡ ret (fail, k))
  unfolding hub_class
  hub_stuck_after_failed_delist h n m k c placed q reach =
      let (s, ran, e) = delists-fail g (hub_class g r cfg) h (hub_delist g r cfg) n m refl q in
      let same : m.state ≡ n.state = ground arith in
      let frozen =
        IsFrozen-of_no_backend m (ground arith)
          (ground (arith, hub_delist-clears n.uid n.self s fail ran)) in
      let still = Reach_of_IsFrozen g (hub_class g r cfg) h frozen reach in
      (
        still,
        same,
        call_of_IsFrozen g (hub_class g r cfg) h c k
            (subst (IsFrozen (hub_class g r cfg)) (sym still) frozen),
      )
