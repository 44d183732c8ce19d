-- ===== src/DeviceDummy.antt =====
-- examples/edge-dummy.c and examples/hub-dummy.c, which have the same text but for the device: a
-- program that enrols, activates, runs its main loop, and delists once the loop is left. The main
-- loop of GLib is a parameter. No enrolment is lazy, so that the node has no timer: a turn of the
-- loop dispatches the event source of the backend, which acts on the private data of the device.
pub mod Waiting
pub mod Tests
use chamge.Prelude.{
  ℕ, ◌≡◌, Bool, true, false, Option, none, some, List, [], ◌∷◌, Text, codes, if◌then◌else◌, Run,
  ret, stop, aborted, ◌>>=◌,
}
use chamge.Types.{Return, ok, NodeState, null, enrolled, activated, BackendKind, amqp}
use chamge.Glib.{Glib}
use chamge.Amqp.{Rabbit, Net}
use chamge.Rpc.{same_string}
use chamge.Backend.{Config}
use chamge.Node.{Node, Class, Handler, Reply, get_state, enroll, activate, delist}
use chamge.Edge.{EdgeData, edge_class}
use chamge.Edge.Life.{edge_new_full}
use chamge.Hub.{HubData, hub_class}
use chamge.Hub.Life.{hub_new_full}

-- GMainLoop: `start` is what g_main_loop_run does before its first turn, and it takes turns while
-- `is_running`.
pub record MainLoop : Type 1 where
  pub Loop : Type 0
  pub new_loop : Loop
  pub quit : Loop → Loop
  pub start : Loop → Loop
  pub is_running : Loop → Bool

-- EdgeContext and HubContext: the loop stands beside the private data of the device, where the
-- handler of "state-changed" finds it.
module _ {S : Type 0} (l : MainLoop) where
  with_loop :
      Option (Option Text → S → Run (Return × S))
      → Option (Option Text → S × l.Loop → Run (Return × (S × l.Loop)))
  with_loop none = none
  with_loop (some m) = some λ uid p. m uid p.0 >>= λ (x, s). ret (x, (s, p.1))

  commands_with_loop :
      Option (Option Text → Text → S → Run (Reply × S))
      → Option (Option Text → Text → S × l.Loop → Run (Reply × (S × l.Loop)))
  commands_with_loop none = none
  commands_with_loop (some m) = some λ uid cmd p. m uid cmd p.0 >>= λ (x, s). ret (x, (s, p.1))

  uid_with_loop :
      Option (Option Text → S → Option Text) → Option (Option Text → S × l.Loop → Option Text)
  uid_with_loop none = none
  uid_with_loop (some m) = some λ uid p. m uid p.0

  class_with_loop : Class S → Class (S × l.Loop)
  unfolding with_loop commands_with_loop uid_with_loop
  class_with_loop k = record {
    enroll_method = with_loop k.enroll_method;
    delist_method = with_loop k.delist_method;
    activate_method = with_loop k.activate_method;
    deactivate_method = with_loop k.deactivate_method;
    get_uid_method = uid_with_loop k.get_uid_method;
    user_command_method = commands_with_loop k.user_command_method;
  }

  state_changed_quit_cb : Handler (S × l.Loop)
  state_changed_quit_cb s n = ret (record n { self = (n.self.0, l.quit n.self.1) })

  context_setup : Node S → Node (S × l.Loop)
  context_setup n = record {
    uid = n.uid;
    state = n.state;
    locked = n.locked;
    timers = n.timers;
    self = (n.self, l.new_loop);
  }

-- `g_assert (ret == CHAMGE_RETURN_OK)`.
asserted : {S : Type 0} → Return × Node S → Run (Node S)
asserted (ok, n) = ret n
asserted (x, n) = stop aborted

-- `g_assert (state == …)`.
expects : {S : Type 0} → NodeState → NodeState × Node S → Run (Node S)
expects null (null, n) = ret n
expects enrolled (enrolled, n) = ret n
expects activated (activated, n) = ret n
expects s (s', n) = stop aborted

-- What is known of the program: it still waits in its main loop, or it has exited with a status.
pub data Ending (S : Type 0) : Type 0 where
  waits : Node S → Ending S
  exits : ℕ → Node S → Ending S

module _ {S : Type 0} (g : Glib) (l : MainLoop) (klass : Class S) where
  -- From the connected signals to the main loop.
  started : Node (S × l.Loop) → Run (Node (S × l.Loop))
  unfolding class_with_loop state_changed_quit_cb asserted expects
  started n = get_state n >>= expects null >>= λ n₁.
      enroll g (class_with_loop l klass) (state_changed_quit_cb l) false 0 n₁ >>= asserted >>= λ n₂.
      get_state n₂ >>= expects enrolled >>= λ n₃.
      activate g (class_with_loop l klass) (state_changed_quit_cb l) n₃ >>= asserted

  -- After the main loop: the exit status is 1.
  finished : Node (S × l.Loop) → Run (Ending (S × l.Loop))
  unfolding class_with_loop state_changed_quit_cb asserted expects
  finished n = delist g (class_with_loop l klass) (state_changed_quit_cb l) n >>= asserted >>= λ m.
      get_state m >>= expects null >>= λ k. ret (exits 1 k)

  -- The turns of the main loop, as far as they are given.
  turns : List (S → Run S) → Node (S × l.Loop) → Run (Ending (S × l.Loop))
  unfolding finished
  turns [] n = if l.is_running n.self.1 then ret (waits n) else finished n
  turns (dispatch ∷ ts) n =
      if l.is_running n.self.1
      then (dispatch n.self.0 >>= λ s. turns ts (record n { self = (s, n.self.1) }))
      else finished n

  -- g_main_loop_run, and what follows.
  run : List (S → Run S) → Node (S × l.Loop) → Run (Ending (S × l.Loop))
  unfolding turns
  run ts n = turns ts (record n { self = (n.self.0, l.start n.self.1) })

  -- `main` from the new device on: `g_assert_cmpstr (uid, ==, check_uid)` comes first.
  pub serve : Text → List (S → Run S) → Node S → Run (Ending (S × l.Loop))
  unfolding context_setup started run
  serve uid ts n =
      if same_string n.uid uid then started (context_setup l n) >>= run ts else stop aborted

-- `main` of the two programs.
module _ (g : Glib) (r : Rabbit) (cfg : Config) (l : MainLoop) where
  edge_main : List (EdgeData r → Run (EdgeData r)) → Net r → Run (Ending (EdgeData r × l.Loop))
  unfolding serve
  edge_main ts s =
      let uid = g.sha256_hex (codes "edge-987-123") in
      edge_new_full r (some uid) amqp s >>= serve g l (edge_class g r cfg) uid ts

  hub_main : List (HubData r → Run (HubData r)) → Net r → Run (Ending (HubData r × l.Loop))
  unfolding serve
  hub_main ts s =
      let uid = g.sha256_hex (codes "hub-987-123") in
      hub_new_full r (some uid) amqp s >>= serve g l (hub_class g r cfg) uid ts
