-- ===== src/Node/Timer.antt =====
-- When the timers of `chamge_node_enroll` with `lazy` fire, and what happens then.
use chamge.Prelude.{
  ℕ, ◌+◌, ◌-◌, ◌*◌, ◌/◌, ◌%◌, ◌<◌, ◌≡◌, ◌≢◌, ◌⊎◌, inl, inr, zero, suc, refl, Bool, true, false,
  if◌then◌else◌, Option, some, ◌∷◌, Text, length, drop, Run, ret, ◌>>=◌, arith,
}
use chamge.Types.{Return, NodeState, async, null}
use chamge.Glib.{Glib}
use chamge.Node.{
  Node, Class, Handler, enroll, enroll_later, enroll_by_uid_group_func, after_timer, trigger_ms,
  group_time_ms,
}

-- The last digit of the digest of a uid.
abbrev pub group_digit : Glib → Text → ℕ
group_digit g uid = g.strtoull16 (drop (length (g.md5_hex uid) - 1) (g.md5_hex uid))

trigger_bounds :
    (r group : ℕ)
    → group < 100000
    → (trigger_ms r group < 100000) × ((r + trigger_ms r group) % 100000 ≡ group)
unfolding trigger_ms
trigger_bounds r group h = ground arith

group_time_lem :
    (g : Glib) (uid : Text)
    → group_digit g uid < 16
    → group_time_ms g uid ≡ group_digit g uid * 6250
unfolding group_time_ms
group_time_lem g uid h = omega arith

NodeState-null : (s : NodeState) → (s ≡ null) ⊎ (s ≢ null)
NodeState-null s = ground arith

module _ {S : Type 0} (g : Glib) (klass : Class S) (h : Handler S) (n : Node S) where
  -- A lazy enrolment of a node that is in the state NULL, has a uid and an enroll method, where
  -- the last digit of the digest of the uid is below 16, returns CHAMGE_RETURN_ASYNC and adds one
  -- timer and nothing else. Its delay is under 100 seconds, and the millisecond at which it ends
  -- is, modulo 100 seconds, 6250 times that digit.
  pub enroll_lazy_slot :
      (uid : Text) (m : Option Text → S → Run (Return × S)) (time : ℕ)
      → n.state ≡ null
      → n.uid ≡ some uid
      → klass.enroll_method ≡ some m
      → group_digit g uid < 16
      → (delay : ℕ) × (enroll g klass h true time n
          ≡ ret (async, record n { timers = delay ∷ n.timers }))
        × (delay < 100000)
        × ((time / 1000 + delay) % 100000 ≡ group_digit g uid * 6250)
  unfolding enroll enroll_later
  enroll_lazy_slot uid m time is_null has_uid has_method digit =
      let slot = group_time_lem g uid digit in
      let bounds = trigger_bounds (time / 1000) (group_time_ms g uid) (omega arith) in
      (trigger_ms (time / 1000) (group_time_ms g uid), ground arith, bounds.0, omega arith)

module _ {S : Type 0} (g : Glib) (klass : Class S) (h : Handler S) where
  -- The first times that a timer fires: GLib keeps its source while the callback returns a true
  -- value. The Boolean says whether the source is still there.
  unfoldable pub firings : ℕ → Node S → Run (Bool × Node S)
  firings zero n = ret (true, n)
  firings (suc k) n = enroll_by_uid_group_func g klass h n >>= λ (kept, m).
      if kept then firings k m else ret (false, m)

  kept_away :
      (m : Option Text → S → Run (Return × S)) (k : ℕ) (n : Node S)
      → klass.enroll_method ≡ some m
      → n.state ≢ null
      → firings k n ≡ ret (true, n)
  unfolding firings enroll_by_uid_group_func
  kept_away m zero n has away = refl
  kept_away m (suc k) n has away = let rest = kept_away m k n has away in ground arith

  -- Let a node have an enroll method, and the source of a timer be kept as long as its callback
  -- returns a true value. If the node is not in the state NULL when the timer fires, the source is
  -- still there after any number of firings, of which none changes the node; if it is in the state
  -- NULL, the source is removed at that firing, if this returns, whether the node could enrol or
  -- not.
  pub timer_kept_forever :
      (m : Option Text → S → Run (Return × S)) (k : ℕ) (n n' : Node S) (kept : Bool)
      → klass.enroll_method ≡ some m
      → firings (suc k) n ≡ ret (kept, n')
      → (n.state ≢ null) × (kept ≡ true) × (n' ≡ n) ⊎ (n.state ≡ null) × (kept ≡ false)
  unfolding firings enroll_by_uid_group_func after_timer
  timer_kept_forever m k n n' kept has ran = elim (NodeState-null n.state) [
    | inr away ↦
        let forever = kept_away m (suc k) n has away in
        let same : (kept ≡ true) × (n' ≡ n) = ground arith in inl (away, same.0, same.1)
    | inl at_null ↦ inr (at_null, grind arith)
  ]
