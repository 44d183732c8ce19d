-- ===== src/Node.antt =====
-- chamge/node.c: the base class of edge, hub and arbiter. Its private data are the uid, the state
-- and a mutex, which is not recursive; one thread runs the main loop. A virtual method sees the
-- uid and the data of its subclass, since the private data of the node are local to node.c.
pub mod Tests
pub mod Calls
pub mod Timer
pub mod Signal
pub mod Life
pub mod Machine
pub mod Frozen
pub mod Rule
use chamge.Prelude.{
  ℕ, ◌+◌, ◌-◌, ◌*◌, ◌/◌, ◌%◌, ◌^◌, Bool, true, false, Option, none, some, List, [], ◌∷◌, Text,
  length, drop, ltb, if◌then◌else◌, Run, ret, stop, ◌>>=◌, null_read, deadlock,
}
use chamge.Types.{Return, fail, ok, async, NodeState, null, enrolled, activated, Error}
use chamge.Glib.{Glib}

pub record Node (S : Type 0) : Type 0 where
  pub uid : Option Text
  pub state : NodeState
  pub locked : Bool
  -- The delays, in milliseconds, of the timers that run `enroll_by_uid_group_func`.
  pub timers : List ℕ
  -- The private data of the subclass, and the world that its methods act on.
  pub self : S

-- What `user_command` writes through `out` and `error`, beside what it returns.
pub record Reply : Type 0 where
  pub result : Return
  pub out : Option Text
  pub error : Option Error

pub record Class (S : Type 0) : Type 0 where
  pub enroll_method : Option (Option Text → S → Run (Return × S))
  pub delist_method : Option (Option Text → S → Run (Return × S))
  pub activate_method : Option (Option Text → S → Run (Return × S))
  pub deactivate_method : Option (Option Text → S → Run (Return × S))
  pub get_uid_method : Option (Option Text → S → Option Text)
  pub user_command_method : Option (Option Text → Text → S → Run (Reply × S))

-- The handlers of "state-changed" together, run with the new state.
abbrev pub Handler : Type 0 → Type 0
Handler S = NodeState → Node S → Run (Node S)

-- chamge_node_init, and the construct-only property "uid".
unfoldable pub init : {S : Type 0} → Option Text → S → Node S
init uid s = record { uid = uid; state = null; locked = false; timers = []; self = s }

unfoldable pub default_method : {S : Type 0} → Option Text → S → Run (Return × S)
default_method uid s = ret (ok, s)

unfoldable pub get_uid_default : {S : Type 0} → Option Text → S → Option Text
get_uid_default uid s = uid

pub user_command_default : {S : Type 0} → Option Text → Text → S → Run (Reply × S)
user_command_default uid cmd s = ret (record { result = ok; out = none; error = none }, s)

-- chamge_node_class_init.
unfoldable pub class_init : {S : Type 0} → Class S
class_init = record {
  enroll_method = some default_method;
  delist_method = some default_method;
  activate_method = some default_method;
  deactivate_method = some default_method;
  get_uid_method = some get_uid_default;
  user_command_method = some user_command_default;
}

-- g_mutex_locker_new; to lock the mutex again in the same thread is a deadlock.
unfoldable pub lock : {S : Type 0} → Node S → Run (Node S)
lock n = if n.locked then stop deadlock else ret (record n { locked = true })

unfoldable pub unlock : {S : Type 0} → Node S → Node S
unlock n = record n { locked = false }

-- chamge_node_get_property at PROP_STATE.
unfoldable pub get_state : {S : Type 0} → Node S → Run (NodeState × Node S)
unfolding lock unlock
get_state n = lock n >>= λ m. ret (m.state, unlock m)

module _ (g : Glib) where
  -- 16 groups in 100 seconds: the group of a uid is the last digit of its MD5 digest.
  pub group_time_ms : Text → ℕ
  group_time_ms uid =
      let md5_digest = g.md5_hex uid in
      g.strtoull16 (drop (length md5_digest - 1) md5_digest) * 6250 % 2 ^ 32

-- The delay from the time `rtime_ms` to the next turn of the group, converted to `guint`.
pub trigger_ms : ℕ → ℕ → ℕ
trigger_ms rtime_ms group =
    (if ltb group (rtime_ms % 100000)
      then 100000 + group - rtime_ms % 100000
      else group - rtime_ms % 100000)
    % 2 ^ 32

module _ {S : Type 0} (g : Glib) (klass : Class S) (on_change : Handler S) where
  -- The tail of the four transitions: the signal is emitted before the mutex is released.
  unfoldable pub commit_locked : NodeState → Node S → Run (Return × Node S)
  unfolding lock unlock
  commit_locked next n =
      lock n >>= λ m. on_change next (record m { state = next }) >>= λ m'. ret (ok, unlock m')

  -- The timer releases the mutex before it emits the signal.
  pub commit_unlocked : NodeState → Node S → Run (Node S)
  unfolding lock unlock
  commit_unlocked next n = lock n >>= λ m. on_change next (unlock (record m { state = next }))

  -- A method ran: on CHAMGE_RETURN_OK the node goes to the state `next`.
  unfoldable pub after : NodeState → Node S → Return × S → Run (Return × Node S)
  unfolding commit_locked
  after next n (ok, s) = commit_locked next (record n { self = s })
  after next n (r, s) = ret (r, record n { self = s })

  unfoldable pub run_method :
      Option (Option Text → S → Run (Return × S)) → NodeState → Node S → Run (Return × Node S)
  unfolding after
  run_method none next n = ret (fail, n)
  run_method (some m) next n = m n.uid n.self >>= after next n

  -- `if (lazy)`: the enrolment is put off to the turn of the group of the uid.
  pub enroll_later : ℕ → Node S → Run (Return × Node S)
  unfolding group_time_ms trigger_ms
  enroll_later real_time n = elim n.uid [
    | none ↦ stop null_read
    | some uid ↦
        let delay = trigger_ms (real_time / 1000) (group_time_ms g uid) in
        ret (async, record n { timers = delay ∷ n.timers })
  ]

  -- `real_time`: what g_get_real_time returns, in microseconds.
  unfoldable pub enroll : Bool → ℕ → Node S → Run (Return × Node S)
  enroll lazy real_time n = elim n.state [
    | null ↦ elim klass.enroll_method [
      | none ↦ ret (fail, n)
      | some m ↦ if lazy then enroll_later real_time n else run_method (some m) enrolled n
    ]
    | _ ↦ ret (fail, n)
  ]

  unfoldable pub delist : Node S → Run (Return × Node S)
  delist n = run_method klass.delist_method null n

  unfoldable pub activate : Node S → Run (Return × Node S)
  activate n = elim n.state [
    | enrolled ↦ run_method klass.activate_method activated n
    | _ ↦ ret (fail, n)
  ]

  unfoldable pub deactivate : Node S → Run (Return × Node S)
  deactivate n = elim n.state [
    | activated ↦ run_method klass.deactivate_method enrolled n
    | _ ↦ ret (fail, n)
  ]

  after_timer : Node S → Return × S → Run (Bool × Node S)
  unfolding commit_unlocked
  after_timer n (ok, s) = commit_unlocked enrolled (record n { self = s }) >>= λ m. ret (false, m)
  after_timer n (r, s) = ret (false, record n { self = s })

  -- The callback of the timer. The Boolean is its `gboolean`: the source is kept for anything but
  -- 0, and CHAMGE_RETURN_FAIL is -1.
  pub enroll_by_uid_group_func : Node S → Run (Bool × Node S)
  unfolding after_timer
  enroll_by_uid_group_func n = elim klass.enroll_method [
    | none ↦ ret (false, n)
    | some m ↦ elim n.state [ null ↦ m n.uid n.self >>= after_timer n | _ ↦ ret (true, n) ]
  ]

  unfoldable pub get_uid : Node S → Return × Option Text
  get_uid n = elim klass.get_uid_method [
    | none ↦ (fail, none)
    | some m ↦ elim (m n.uid n.self) [ none ↦ (fail, none) | some uid ↦ (ok, some uid) ]
  ]

  unfoldable pub user_command : Text → Node S → Run (Reply × Node S)
  user_command cmd n = elim n.state [
    | activated ↦ elim klass.user_command_method [
      | none ↦ ret (record { result = fail; out = none; error = none }, n)
      | some m ↦ m n.uid cmd n.self >>= λ p. ret (p.0, record n { self = p.1 })
    ]
    | _ ↦ ret (record { result = fail; out = none; error = none }, n)
  ]
