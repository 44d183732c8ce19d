-- ===== src/Node/Tests.antt =====
-- A node of the base class (chamge/node.c), and its machine on it.
use chamge.Prelude.{
  ℕ, ◌+◌, ◌*◌, ◌/◌, ◌%◌, ◌<◌, ◌≡◌, ◌≢◌, ◌⊎◌, refl, true, false, some, [], ◌∷◌, codes, ret, stop,
  deadlock, arith,
}
use chamge.Types.{ok, async, null, enrolled, activated}
use chamge.Samples.{sample_glib}
use chamge.Prelude.{none}
use chamge.Node.{
  Node, Class, class_init, default_method, init, commit_locked, run_method, after, enroll, activate,
  enroll_by_uid_group_func,
}
use chamge.Node.Calls.{delists, enrolls, activates, call, Reach, here, next, calls}
use chamge.Node.Machine.{call-follows-documented, activated_after_enrolled}
use chamge.Node.Signal.{silent, reads_state, call-reads_state_deadlock, silent-IsQuiet}
use chamge.Node.Timer.{enroll_lazy_slot, firings, timer_kept_forever, group_digit}

abbrev new_node : Node ℕ
new_node = record { uid = some (codes "7a"); state = null; locked = false; timers = []; self = 0 }

abbrev base : Class ℕ
base = class_init

new_node-init : init (some (codes "7a")) 0 ≡ new_node
unfolding init
new_node-init = refl

enrolls_lem :
    call sample_glib base silent enrolls new_node ≡ ret (ok, record new_node { state = enrolled })
unfolding call enroll class_init default_method run_method commit_locked after
enrolls_lem = refl

activates_lem :
    call sample_glib base silent activates (record new_node { state = enrolled })
    ≡ ret (ok, record new_node { state = activated })
unfolding call activate class_init default_method run_method commit_locked after
activates_lem = refl

abbrev history : Reach sample_glib base silent new_node (record new_node { state = activated })
history = next (next here (calls enrolls ok enrolls_lem)) (calls activates ok activates_lem)

call-follows-documented_example :
    (ok ≡ ok)
      × ((some enrolled ≡ some enrolled)
          ⊎ (some enrolled ≡ none) × (enrolls ≡ delists) × (null ≢ enrolled) × (enrolled ≡ null))
    ⊎ (ok ≢ ok) × (enrolled ≡ null)
call-follows-documented_example =
    call-follows-documented sample_glib base silent silent-IsQuiet enrolls new_node
      (record new_node { state = enrolled }) ok enrolls_lem

activated_after_enrolled_example :
    (k : Node ℕ) × Reach sample_glib base silent new_node k
    × (k.state ≡ enrolled)
    × Reach sample_glib base silent k (record new_node { state = activated })
activated_after_enrolled_example =
    activated_after_enrolled sample_glib base silent silent-IsQuiet refl history refl

-- The digest of "7a" ends in "a".
enroll_lazy_slot_example :
    (delay : ℕ) × (enroll sample_glib base silent true 1700000000000000 new_node
      ≡ ret (async, record new_node { timers = delay ∷ [] }))
    × (delay < 100000)
    × ((1700000000000000 / 1000 + delay) % 100000 ≡ group_digit sample_glib (codes "7a") * 6250)
unfolding class_init
enroll_lazy_slot_example =
    enroll_lazy_slot sample_glib base silent new_node (codes "7a") default_method 1700000000000000
      refl refl refl (omega arith)

abbrev away : Node ℕ
away = record new_node { state = enrolled }

timer_kept_forever_example :
    (away.state ≢ null) × (true ≡ true) × (away ≡ away) ⊎ (away.state ≡ null) × (true ≡ false)
unfolding class_init firings enroll_by_uid_group_func
timer_kept_forever_example =
    timer_kept_forever sample_glib base silent default_method 2 away away true refl refl

call-reads_state_deadlock_example :
    call sample_glib base reads_state enrolls new_node ≡ stop deadlock
call-reads_state_deadlock_example =
    call-reads_state_deadlock sample_glib base enrolls new_node
      (record new_node { state = enrolled }) enrolls_lem
