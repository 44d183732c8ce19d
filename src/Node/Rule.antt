-- ===== src/Node/Rule.antt =====
-- A rule for the classes of nodes: what their methods keep, every history of a node keeps
-- (chamge/node.c).
pub mod Ran
use chamge.Prelude.{
  ◌≡◌, ◌≢◌, ◌⊎◌, inl, inr, refl, sym, ap, ◌∙◌, subst, Bool, true, false, Option, none, some, Text,
  Run, ret, arith, Run-cases, Bool-cases, Option-cases,
}
use chamge.Types.{Return, fail, ok, async, NodeState, null, enrolled, activated}
use chamge.Glib.{Glib}
use chamge.Node.{
  Node, Class, Handler, lock, unlock, commit_locked, commit_unlocked, after, after_timer,
  run_method, enroll_later, enroll, delist, activate, deactivate, enroll_by_uid_group_func,
}
use chamge.Node.Calls.{
  Call, enrolls, delists, activates, deactivates, enrolls_lazily, call, calls, fires, Reach, here,
  next,
}

-- Where a call that returns `x` goes, that is meant to go from one state to another.
abbrev pub arrival : Return → NodeState → NodeState → NodeState
arrival ok from to = to
arrival _ from to = from

-- A handler of "state-changed" that changes neither the state nor the data of the subclass.
pub record IsPassive {S : Type 0} (h : Handler S) : Type 0 where
  pub passes :
      (s : NodeState) (n m : Node S) → h s n ≡ ret m → (m.state ≡ n.state) × (m.self ≡ n.self)

-- A property of the state and the data that the methods keep.
pub record IsKept {S : Type 0} (klass : Class S) (P : NodeState → S → Type 0) : Type 0 where
  pub enrolling :
      (f : Option Text → S → Run (Return × S)) (uid : Option Text) (s t : S) (x : Return)
      → klass.enroll_method ≡ some f
      → f uid s ≡ ret (x, t)
      → P null s
      → P (arrival x null enrolled) t
  pub delisting :
      (f : Option Text → S → Run (Return × S)) (uid : Option Text) (s t : S) (x : Return)
      (from : NodeState)
      → klass.delist_method ≡ some f
      → f uid s ≡ ret (x, t)
      → P from s
      → P (arrival x from null) t
  pub activating :
      (f : Option Text → S → Run (Return × S)) (uid : Option Text) (s t : S) (x : Return)
      → klass.activate_method ≡ some f
      → f uid s ≡ ret (x, t)
      → P enrolled s
      → P (arrival x enrolled activated) t
  pub deactivating :
      (f : Option Text → S → Run (Return × S)) (uid : Option Text) (s t : S) (x : Return)
      → klass.deactivate_method ≡ some f
      → f uid s ≡ ret (x, t)
      → P activated s
      → P (arrival x activated enrolled) t

-- What is known of a method by its entry in the class.
pub method_runs :
    {S : Type 0} (f k : Option Text → S → Run (Return × S)) (uid : Option Text) (s : S)
    (q : Run (Return × S))
    → some f ≡ some k
    → k uid s ≡ q
    → f uid s ≡ q
method_runs f k uid s q e h = ap (λ o. elim o [ none ↦ q | some m ↦ m uid s ]) e ∙ h

NodeState-cases : (a b : NodeState) → (a ≡ b) ⊎ (a ≢ b)
NodeState-cases a b = ground arith

module _ {S : Type 0} (g : Glib) (klass : Class S) (h : Handler S) (passive : IsPassive h) where
  -- A call that got as far as the method of its transition.
  abbrev Runs : Call → Node S → Node S → Return → Type 0
  Runs enrolls n m x =
      (n.state ≡ null) × (run_method g klass h klass.enroll_method enrolled n ≡ ret (x, m))
  Runs delists n m x = run_method g klass h klass.delist_method null n ≡ ret (x, m)
  Runs activates n m x =
      (n.state ≡ enrolled) × (run_method g klass h klass.activate_method activated n ≡ ret (x, m))
  Runs deactivates n m x =
      (n.state ≡ activated) × (run_method g klass h klass.deactivate_method enrolled n ≡ ret (x, m))
  Runs (enrolls_lazily t) n m x = (m.state ≡ n.state) × (m.self ≡ n.self)

  commit-arrival :
      (s : NodeState) (n m : Node S) (x : Return)
      → commit_locked g klass h s n ≡ ret (x, m)
      → (x ≡ ok) × (m.state ≡ s) × (m.self ≡ n.self)
  unfolding commit_locked lock unlock
  commit-arrival s n m x e = elim (Bool-cases n.locked) [
    | inl held ↦ ground arith
    | inr free ↦ elim (Run-cases (h s (record n { locked = true; state = s }))) [
      | inl (k, e') ↦ ground (arith, passive.passes s (record n { locked = true; state = s }) k e')
      | inr (y, e') ↦ ground arith
    ]
  ]

  run_method-arrival :
      (f : Option Text → S → Run (Return × S)) (s : NodeState) (n m : Node S) (x : Return)
      → run_method g klass h (some f) s n ≡ ret (x, m)
      → (f n.uid n.self ≡ ret (x, m.self)) × (m.state ≡ arrival x n.state s)
  unfolding run_method after
  run_method-arrival f s n m x e = elim (Run-cases (f n.uid n.self)) [
    | inr (y, e') ↦ absurd (ground arith)
    | inl ((y, t), e') ↦ ground (arith, commit-arrival s (record n { self = t }) m x)
  ]

  after_timer-arrival :
      (n m : Node S) (t : S) (x : Return) (again : Bool)
      → after_timer g klass h n (x, t) ≡ ret (again, m)
      → (m.self ≡ t) × (m.state ≡ arrival x n.state enrolled)
  unfolding after_timer commit_unlocked lock unlock
  after_timer-arrival n m t fail again e = ground arith
  after_timer-arrival n m t async again e = ground arith
  after_timer-arrival n m t ok again e =
      let k : Node S = record n { self = t; state = enrolled; locked = false } in
      elim (Run-cases (h enrolled k)) [
        | inl (j, e') ↦ ground (arith, passive.passes enrolled k j e')
        | inr (y, e') ↦ absurd (ground arith)
      ]

  timer-arrival :
      (n m : Node S) (again : Bool)
      → enroll_by_uid_group_func g klass h n ≡ ret (again, m)
      → (m ≡ n)
        ⊎ (f : Option Text → S → Run (Return × S)) × (x : Return) × (klass.enroll_method ≡ some f)
          × (n.state ≡ null)
          × (f n.uid n.self ≡ ret (x, m.self))
          × (m.state ≡ arrival x n.state enrolled)
  unfolding enroll_by_uid_group_func
  timer-arrival n m again e = elim (Option-cases klass.enroll_method) [
    | inl without ↦ inl (ground arith)
    | inr (f, has) ↦ elim (Run-cases (f n.uid n.self)) [
      | inr (y, ran) ↦ inl (ground arith)
      | inl ((x, t), ran) ↦ elim (NodeState-cases n.state null) [
        | inr elsewhere ↦ inl (ground arith)
        | inl at_null ↦
            let (own, reached) = after_timer-arrival n m t x again (ground arith) in
            inr (f, x, has, at_null, ground arith, reached)
      ]
    ]
  ]

  call-Runs :
      (c : Call) (n m : Node S) (x : Return)
      → call g klass h c n ≡ ret (x, m)
      → (m.state ≡ n.state) × (m.self ≡ n.self) ⊎ Runs c n m x
  unfolding call enroll delist activate deactivate enroll_later
  call-Runs enrolls n m x e = ground arith
  call-Runs delists n m x e = ground arith
  call-Runs activates n m x e = ground arith
  call-Runs deactivates n m x e = ground arith
  call-Runs (enrolls_lazily t) n m x e = ground arith

  module _ (P : NodeState → S → Type 0) (kept : IsKept klass P) where
    run_method_keeps :
        (o : Option (Option Text → S → Run (Return × S))) (s : NodeState) (n m : Node S)
        (x : Return)
        → run_method g klass h o s n ≡ ret (x, m)
        → P n.state n.self
        → ((f : Option Text → S → Run (Return × S))
            → o ≡ some f
            → f n.uid n.self ≡ ret (x, m.self)
            → P (arrival x n.state s) m.self)
        → P m.state m.self
    unfolding run_method
    run_method_keeps none s n m x e p keeps = ground arith
    run_method_keeps (some f) s n m x e p keeps =
        let (ran, reached) = run_method-arrival f s n m x e in
        subst (λ z. P z m.self) (sym reached) (keeps f refl ran)

    from_state :
        (n : Node S) (a b : NodeState) (x : Return) (t : S)
        → n.state ≡ a
        → P n.state n.self
        → (P a n.self → P (arrival x a b) t)
        → P (arrival x n.state b) t
    from_state n a b x t e p keeps =
        subst (λ z. P (arrival x z b) t) (sym e) (keeps (subst (λ z. P z n.self) e p))

    same_keeps :
        (n m : Node S) → m.state ≡ n.state → m.self ≡ n.self → P n.state n.self → P m.state m.self
    same_keeps n m a b p = subst (λ z. P z m.self) (sym a) (subst (λ z. P n.state z) (sym b) p)

    runs_keeps :
        (c : Call) (n m : Node S) (x : Return) → Runs c n m x → P n.state n.self → P m.state m.self
    runs_keeps enrolls n m x (a, e) p =
        run_method_keeps klass.enroll_method enrolled n m x e p λ f has ran.
          from_state n null enrolled x m.self a p (kept.enrolling f n.uid n.self m.self x has ran)
    runs_keeps delists n m x e p =
        run_method_keeps klass.delist_method null n m x e p
          (λ f has ran. kept.delisting f n.uid n.self m.self x n.state has ran p)
    runs_keeps activates n m x (a, e) p =
        run_method_keeps klass.activate_method activated n m x e p λ f has ran.
          from_state n enrolled activated x m.self a p
            (kept.activating f n.uid n.self m.self x has ran)
    runs_keeps deactivates n m x (a, e) p =
        run_method_keeps klass.deactivate_method enrolled n m x e p λ f has ran.
          from_state n activated enrolled x m.self a p
            (kept.deactivating f n.uid n.self m.self x has ran)
    runs_keeps (enrolls_lazily t) n m x (a, b) p = same_keeps n m a b p

    call_keeps :
        (c : Call) (n m : Node S) (x : Return)
        → call g klass h c n ≡ ret (x, m)
        → P n.state n.self
        → P m.state m.self
    call_keeps c n m x e p = elim (call-Runs c n m x e) [
      | inl (a, b) ↦ same_keeps n m a b p
      | inr ran ↦ runs_keeps c n m x ran p
    ]

    timer_keeps :
        (n m : Node S) (again : Bool)
        → enroll_by_uid_group_func g klass h n ≡ ret (again, m)
        → P n.state n.self
        → P m.state m.self
    timer_keeps n m again e p = elim (timer-arrival n m again e) [
      | inl same ↦ subst (λ (k : Node S). P k.state k.self) (sym same) p
      | inr (f, x, has, at_null, ran, reached) ↦
          subst (λ z. P z m.self) (sym reached)
            (from_state n null enrolled x m.self at_null p
              (kept.enrolling f n.uid n.self m.self x has ran))
    ]

    -- What the methods of a class keep, every history of calls and timers of a node keeps, if no
    -- handler of "state-changed" changes the state or the data of the subclass.
    pub Reach_keeps : {n m : Node S} → P n.state n.self → Reach g klass h n m → P m.state m.self
    Reach_keeps p here = p
    Reach_keeps p (next r (calls c x e)) = call_keeps c _ _ x e (Reach_keeps p r)
    Reach_keeps p (next r (fires again e)) = timer_keeps _ _ again e (Reach_keeps p r)
