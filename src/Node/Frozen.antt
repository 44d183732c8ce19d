-- ===== src/Node/Frozen.antt =====
-- A node whose methods all fail (chamge/node.c) stays as it is.
use chamge.Prelude.{
  ◌≡◌, ◌≢◌, refl, sym, ◌∙◌, subst, Option, some, Text, true, Run, Run-cases, inl, inr, ret, arith,
}
use chamge.Types.{Return, fail, NodeState, null, enrolled, activated}
use chamge.Glib.{Glib}
use chamge.Node.{
  Node, Class, Handler, run_method, enroll, delist, activate, deactivate, enroll_by_uid_group_func,
}
use chamge.Node.Calls.{
  Call, enrolls, delists, activates, deactivates, enrolls_lazily, call, Step, calls, fires, Reach,
  here, next,
}

-- The method is there, and fails without a change.
abbrev pub Refuses :
    {S : Type 0} → Option (Option Text → S → Run (Return × S)) → Option Text → S → Type 0
Refuses {S} f uid s =
    (m : Option Text → S → Run (Return × S)) × (f ≡ some m) × (m uid s ≡ ret (fail, s))

pub record IsFrozen {S : Type 0} (klass : Class S) (n : Node S) : Type 0 where
  pub placed : n.state ≢ null
  pub enrolling : (m : Option Text → S → Run (Return × S)) × (klass.enroll_method ≡ some m)
  pub delisting : Refuses klass.delist_method n.uid n.self
  pub activating : Refuses klass.activate_method n.uid n.self
  pub deactivating : Refuses klass.deactivate_method n.uid n.self

module _ {S : Type 0} (g : Glib) (klass : Class S) (h : Handler S) where
  run_method_refused :
      (f : Option (Option Text → S → Run (Return × S))) (next : NodeState) (n : Node S)
      → Refuses f n.uid n.self
      → run_method g klass h f next n ≡ ret (fail, n)
  unfolding run_method
  run_method_refused f s n (m, e, q) = ground arith

  pub call_of_IsFrozen :
      (c : Call) (n : Node S) → IsFrozen klass n → call g klass h c n ≡ ret (fail, n)
  unfolding call enroll delist activate deactivate
  call_of_IsFrozen enrolls n z = ground (arith, z.placed)
  call_of_IsFrozen delists n z = run_method_refused klass.delist_method null n z.delisting
  call_of_IsFrozen activates n z =
      ground (arith, run_method_refused klass.activate_method activated n z.activating)
  call_of_IsFrozen deactivates n z =
      ground (arith, run_method_refused klass.deactivate_method enrolled n z.deactivating)
  call_of_IsFrozen (enrolls_lazily t) n z = ground (arith, z.placed)

  timer_of_IsFrozen :
      (n : Node S) → IsFrozen klass n → enroll_by_uid_group_func g klass h n ≡ ret (true, n)
  unfolding enroll_by_uid_group_func
  timer_of_IsFrozen n z = ground (arith, z.placed, z.enrolling.1)

  Step-of_IsFrozen : {n m : Node S} → IsFrozen klass n → Step g klass h n m → m ≡ n
  Step-of_IsFrozen {n} z (calls c r e) = ground (arith, call_of_IsFrozen c n z)
  Step-of_IsFrozen {n} z (fires kept e) = ground (arith, timer_of_IsFrozen n z)

  -- No history of calls and timers changes a frozen node.
  pub Reach_of_IsFrozen : {n m : Node S} → IsFrozen klass n → Reach g klass h n m → m ≡ n
  Reach_of_IsFrozen z here = refl
  Reach_of_IsFrozen z (next r s) =
      let same = Reach_of_IsFrozen z r in
      Step-of_IsFrozen (subst (IsFrozen klass) (sym same) z) s ∙ same

  -- A delisting that fails has only run the method, which failed.
  pub delists-fail :
      (f : Option Text → S → Run (Return × S)) (n m : Node S)
      → klass.delist_method ≡ some f
      → call g klass h delists n ≡ ret (fail, m)
      → (s : S) × (f n.uid n.self ≡ ret (fail, s)) × (m ≡ record n { self = s })
  unfolding call delist run_method
  delists-fail f n m e q = elim (Run-cases (f n.uid n.self)) [
    | inl ((x, s), ran) ↦ (s, ground arith, ground arith)
    | inr (x, ran) ↦ absurd (ground arith)
  ]
