-- ===== src/Node/Calls.antt =====
-- The calls of the public API of a node as one type, for statements about all of them, and the
-- steps that a node takes: calls, and timers that fire (chamge/node.h, chamge/node.c).
use chamge.Prelude.{ℕ, ◌≡◌, Bool, true, false, Run, ret}
use chamge.Types.{Return, NodeState}
use chamge.Glib.{Glib}
use chamge.Node.{
  Node, Class, Handler, enroll, delist, activate, deactivate, enroll_by_uid_group_func,
}

pub data Call : Type 0 where
  enrolls delists activates deactivates : Call
  -- With `lazy`, at the given time.
  enrolls_lazily : ℕ → Call

-- A handler that does not change the state of the node, nor leave its mutex in another state.
pub record IsQuiet {S : Type 0} (h : Handler S) : Type 0 where
  pub keeps :
      (s : NodeState) (n m : Node S) → h s n ≡ ret m → (m.state ≡ n.state) × (m.locked ≡ n.locked)

module _ {S : Type 0} (g : Glib) (klass : Class S) (h : Handler S) where
  unfoldable pub call : Call → Node S → Run (Return × Node S)
  call enrolls n = enroll g klass h false 0 n
  call delists n = delist g klass h n
  call activates n = activate g klass h n
  call deactivates n = deactivate g klass h n
  call (enrolls_lazily t) n = enroll g klass h true t n

  pub data Step (n m : Node S) : Type 0 where
    calls : (c : Call) (r : Return) → call c n ≡ ret (r, m) → Step n m
    fires : (kept : Bool) → enroll_by_uid_group_func g klass h n ≡ ret (kept, m) → Step n m

  pub data Reach (n : Node S) : Node S → Type 0 where
    here : Reach n n
    next : {m k : Node S} → Reach n m → Step m k → Reach n k
