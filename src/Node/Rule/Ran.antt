-- ===== src/Node/Rule/Ran.antt =====
-- What a call of a node that returns CHAMGE_RETURN_OK has run (chamge/node.c).
use chamge.Prelude.{◌≡◌, refl, Option, some, none, Text, Run, ret, arith}
use chamge.Types.{Return, ok, NodeState, null, enrolled}
use chamge.Glib.{Glib}
use chamge.Node.{Node, Class, Handler, run_method, enroll, delist}
use chamge.Node.Calls.{enrolls, delists, call}
use chamge.Node.Rule.{IsPassive, Runs, run_method-arrival}

module _ {S : Type 0} (g : Glib) (klass : Class S) (h : Handler S) (passive : IsPassive h) where
  run_method-ran :
      (o : Option (Option Text → S → Run (Return × S))) (s : NodeState) (n m : Node S)
      → run_method g klass h o s n ≡ ret (ok, m)
      → (f : Option Text → S → Run (Return × S)) × (o ≡ some f)
        × (f n.uid n.self ≡ ret (ok, m.self))
        × (m.state ≡ s)
  unfolding run_method
  run_method-ran none s n m e = absurd (ground arith)
  run_method-ran (some f) s n m e =
      let (ran, reached) = run_method-arrival g klass h passive f s n m ok e in
      (f, refl, ran, reached)

  -- An enrolment found the state NULL, ran the method, and leaves the state ENROLLED.
  pub enrolls-ran :
      (n m : Node S)
      → call g klass h enrolls n ≡ ret (ok, m)
      → (n.state ≡ null)
        × (f : Option Text → S → Run (Return × S)) × (klass.enroll_method ≡ some f)
        × (f n.uid n.self ≡ ret (ok, m.self))
        × (m.state ≡ enrolled)
  unfolding call enroll
  enrolls-ran n m e =
      let runs : Runs g klass h passive enrolls n m ok = ground arith in
      let (f, has, ran, reached) = run_method-ran klass.enroll_method enrolled n m runs.1 in
      (runs.0, f, has, ran, reached)

  -- A delisting ran the method, and leaves the state NULL.
  pub delists-ran :
      (n m : Node S)
      → call g klass h delists n ≡ ret (ok, m)
      → (f : Option Text → S → Run (Return × S)) × (klass.delist_method ≡ some f)
        × (f n.uid n.self ≡ ret (ok, m.self))
        × (m.state ≡ null)
  unfolding call delist
  delists-ran n m e = run_method-ran klass.delist_method null n m e
