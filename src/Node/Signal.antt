-- ===== src/Node/Signal.antt =====
-- What a handler of "state-changed" may do: the mutex of the node is held while it runs, except
-- under the timer.
use chamge.Prelude.{◌≡◌, Option, Text, Run, ret, stop, ◌>>=◌, deadlock, arith}
use chamge.Types.{Return, ok, NodeState, null, enrolled, activated}
use chamge.Glib.{Glib}
use chamge.Node.{
  Node, Class, Handler, commit_locked, run_method, enroll_later, enroll, delist, activate,
  deactivate, enroll_by_uid_group_func, get_state,
}
use chamge.Node.Calls.{
  IsQuiet, Call, enrolls, delists, activates, deactivates, enrolls_lazily, call,
}

-- A handler that does nothing, and one that reads the property "state".
abbrev pub silent : {S : Type 0} → Handler S
silent s n = ret n

pub silent-IsQuiet : {S : Type 0} → IsQuiet {S = S} silent
silent-IsQuiet = record { keeps = λ s n m h. ground arith }

abbrev pub reads_state : {S : Type 0} → Handler S
reads_state s n = get_state n >>= λ p. ret p.1

module _ {S : Type 0} (g : Glib) (klass : Class S) where
  run_method_deadlock :
      (f : Option (Option Text → S → Run (Return × S))) (next : NodeState) (n m : Node S)
      → run_method g klass silent f next n ≡ ret (ok, m)
      → run_method g klass reads_state f next n ≡ stop deadlock
  unfolding run_method commit_locked get_state
  run_method_deadlock f next n m h = ground arith

  -- If a call returns CHAMGE_RETURN_OK where no handler does anything, then the same call with a
  -- handler of "state-changed" that reads the property "state" is a deadlock.
  pub call-reads_state_deadlock :
      (c : Call) (n m : Node S)
      → call g klass silent c n ≡ ret (ok, m)
      → call g klass reads_state c n ≡ stop deadlock
  unfolding call enroll delist activate deactivate enroll_later
  call-reads_state_deadlock enrolls n m h =
      ground (arith, run_method_deadlock klass.enroll_method enrolled n m)
  call-reads_state_deadlock delists n m h =
      ground (arith, run_method_deadlock klass.delist_method null n m)
  call-reads_state_deadlock activates n m h =
      ground (arith, run_method_deadlock klass.activate_method activated n m)
  call-reads_state_deadlock deactivates n m h =
      ground (arith, run_method_deadlock klass.deactivate_method enrolled n m)
  call-reads_state_deadlock (enrolls_lazily t) n m h = ground arith

  -- The timer releases the mutex first: a handler that reads the state changes nothing there.
  timer-reads_state :
      (n : Node S)
      → enroll_by_uid_group_func g klass reads_state n ≡ enroll_by_uid_group_func g klass silent n
  unfolding enroll_by_uid_group_func get_state
  timer-reads_state n = ground arith
