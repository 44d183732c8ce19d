-- ===== src/Node/Machine.antt =====
-- The state machine of a node: an independent description, and that the code follows it.
use chamge.Prelude.{
  ◌≡◌, refl, ◌≢◌, ◌⊎◌, inl, inr, Bool, true, false, Option, none, some, Text, Run, ret, arith,
  Run-cases, Bool-cases,
}
use chamge.Types.{Return, ok, NodeState, null, enrolled, activated}
use chamge.Glib.{Glib}
use chamge.Node.{
  Node, Class, Handler, commit_locked, run_method, enroll_later, enroll, delist, activate,
  deactivate, enroll_by_uid_group_func,
}
use chamge.Node.Calls.{
  Call, enrolls, delists, activates, deactivates, enrolls_lazily, IsQuiet, call, Step, calls, fires,
  Reach, here, next,
}

-- The state that a successful call goes to; a lazy enrolment succeeds later, by its timer.
abbrev pub goal : Call → NodeState → Option NodeState
goal enrolls null = some enrolled
goal delists s = some null
goal activates enrolled = some activated
goal deactivates activated = some enrolled
goal c s = none

-- The transitions of the README: delisting is one from ENROLLED only.
abbrev pub documented : Call → NodeState → Option NodeState
documented enrolls null = some enrolled
documented delists enrolled = some null
documented activates enrolled = some activated
documented deactivates activated = some enrolled
documented c s = none

documented_or_delists :
    (c : Call) (s t : NodeState)
    → goal c s ≡ some t
    → (documented c s ≡ some t)
      ⊎ (documented c s ≡ none) × (c ≡ delists) × (s ≢ enrolled) × (t ≡ null)
documented_or_delists enrolls null t h = inl h
documented_or_delists delists enrolled t h = inl h
documented_or_delists delists null t h = inr (refl, refl, ground arith, ground arith)
documented_or_delists delists activated t h = inr (refl, refl, ground arith, ground arith)
documented_or_delists activates enrolled t h = inl h
documented_or_delists deactivates activated t h = inl h
documented_or_delists c s t h = absurd (ground (arith, h))

module _ {S : Type 0} (g : Glib) (klass : Class S) (h : Handler S) (quiet : IsQuiet h) where
  commit_follows :
      (s : NodeState) (n m : Node S) (r : Return)
      → commit_locked g klass h s n ≡ ret (r, m)
      → (r ≡ ok) × (m.state ≡ s) × (m.locked ≡ false)
  unfolding commit_locked
  commit_follows s n m r e = elim (Bool-cases n.locked) [
    | inl held ↦ ground arith
    | inr free ↦ elim (Run-cases (h s (record n { locked = true; state = s }))) [
      | inl (k, e') ↦ ground (arith, quiet.keeps s (record n { locked = true; state = s }) k e')
      | inr (x, e') ↦ ground arith
    ]
  ]

  run_method_follows :
      (f : Option (Option Text → S → Run (Return × S))) (s : NodeState) (n m : Node S) (r : Return)
      → run_method g klass h f s n ≡ ret (r, m)
      → (r ≡ ok) × (m.state ≡ s) × (m.locked ≡ false)
        ⊎ (r ≢ ok) × (m.state ≡ n.state) × (m.locked ≡ n.locked)
  unfolding run_method
  run_method_follows f s n m r e = grind (arith, commit_follows)

  -- The same with delisting as the code has it, from every state.
  pub call-follows-goal :
      (c : Call) (n m : Node S) (r : Return)
      → call g klass h c n ≡ ret (r, m)
      → (r ≡ ok) × (goal c n.state ≡ some m.state) ⊎ (r ≢ ok) × (m.state ≡ n.state)
  unfolding call enroll delist activate deactivate enroll_later
  call-follows-goal enrolls n m r e =
      ground (arith, run_method_follows klass.enroll_method enrolled n m r)
  call-follows-goal delists n m r e =
      ground (arith, run_method_follows klass.delist_method null n m r)
  call-follows-goal activates n m r e =
      ground (arith, run_method_follows klass.activate_method activated n m r)
  call-follows-goal deactivates n m r e =
      ground (arith, run_method_follows klass.deactivate_method enrolled n m r)
  call-follows-goal (enrolls_lazily t) n m r e = ground arith

  -- Where no handler changes the state, a call that returns CHAMGE_RETURN_OK has made the
  -- transition that the README gives for it in the state that it found; or the README gives none,
  -- and it was a delisting, which leads from NULL or ACTIVATED to NULL. A call that returns
  -- anything else leaves the state as it was.
  pub call-follows-documented :
      (c : Call) (n m : Node S) (r : Return)
      → call g klass h c n ≡ ret (r, m)
      → (r ≡ ok)
          × ((documented c n.state ≡ some m.state)
              ⊎ (documented c n.state ≡ none)
                × (c ≡ delists)
                × (n.state ≢ enrolled)
                × (m.state ≡ null))
        ⊎ (r ≢ ok) × (m.state ≡ n.state)
  call-follows-documented c n m r e = elim (call-follows-goal c n m r e) [
    | inr other ↦ inr other
    | inl (fine, went) ↦ inl (fine, documented_or_delists c n.state m.state went)
  ]

  call-unlocked :
      (c : Call) (n m : Node S) (r : Return)
      → n.locked ≡ false
      → call g klass h c n ≡ ret (r, m)
      → m.locked ≡ false
  unfolding call enroll delist activate deactivate enroll_later
  call-unlocked enrolls n m r l e =
      ground (arith, run_method_follows klass.enroll_method enrolled n m r)
  call-unlocked delists n m r l e =
      ground (arith, run_method_follows klass.delist_method null n m r)
  call-unlocked activates n m r l e =
      ground (arith, run_method_follows klass.activate_method activated n m r)
  call-unlocked deactivates n m r l e =
      ground (arith, run_method_follows klass.deactivate_method enrolled n m r)
  call-unlocked (enrolls_lazily t) n m r l e = ground arith

  timer_follows :
      (n m : Node S) (kept : Bool)
      → enroll_by_uid_group_func g klass h n ≡ ret (kept, m)
      → (n.state ≡ null) × (m.state ≡ enrolled) × (m.locked ≡ false)
        ⊎ (m.state ≡ n.state) × (m.locked ≡ n.locked)
  unfolding enroll_by_uid_group_func
  timer_follows n m kept e = grind (arith, quiet.keeps)

  Step-unlocked : {n m : Node S} → Step g klass h n m → n.locked ≡ false → m.locked ≡ false
  Step-unlocked {n} {m} (calls c r e) l = call-unlocked c n m r l e
  Step-unlocked {n} {m} (fires kept e) l = ground (arith, timer_follows n m kept e)

  -- The mutex is free after every history of calls and timers, where no handler changes that.
  Reach-unlocked : {n m : Node S} → n.locked ≡ false → Reach g klass h n m → m.locked ≡ false
  Reach-unlocked l here = l
  Reach-unlocked l (next r s) = Step-unlocked s (Reach-unlocked l r)

  Step-activated :
      {n m : Node S}
      → Step g klass h n m
      → m.state ≡ activated
      → (n.state ≡ activated) ⊎ (n.state ≡ enrolled)
  Step-activated {n} {m} (calls c r e) a = ground (arith, call-follows-goal c n m r e)
  Step-activated {n} {m} (fires kept e) a = ground (arith, timer_follows n m kept e)

  -- A history that begins in the state NULL and ends in ACTIVATED has passed through ENROLLED,
  -- where no handler changes the state.
  pub activated_after_enrolled :
      {n m : Node S}
      → n.state ≡ null
      → Reach g klass h n m
      → m.state ≡ activated
      → (k : Node S) × Reach g klass h n k × (k.state ≡ enrolled) × Reach g klass h k m
  activated_after_enrolled z here a = absurd (ground arith)
  activated_after_enrolled z (next {m = k} r s) a = elim (Step-activated s a) [
    | inl was ↦
        let (j, before, e, rest) = activated_after_enrolled z r was in (j, before, e, next rest s)
    | inr was ↦ (k, r, was, next here s)
  ]
