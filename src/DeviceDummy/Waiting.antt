-- ===== src/DeviceDummy/Waiting.antt =====
-- How a session of examples/edge-dummy.c or examples/hub-dummy.c goes on.
use chamge.Prelude.{
  ◌≡◌, ◌⊎◌, ◌∙◌, ap, refl, true, false, Option, none, some, List, [], ◌∷◌, Text, Run, ret, stop,
  ◌>>=◌, arith, Run-cases, inl, inr, Bool-cases, Option-cases,
}
use chamge.Types.{Return, ok, NodeState, null, enrolled, activated}
use chamge.Glib.{Glib}
use chamge.Rpc.{same_string}
use chamge.Node.{
  Node, Class, get_state, enroll, activate, delist, run_method, after, commit_locked, lock, unlock,
}
use chamge.DeviceDummy.{
  MainLoop, Ending, waits, exits, class_with_loop, with_loop, state_changed_quit_cb, context_setup,
  asserted, expects, started, finished, turns, run, serve,
}

-- The main loop that the handler of "state-changed" has quit once for the enrolment and once for
-- the activation, and that g_main_loop_run has then started.
abbrev pub quit_twice : (l : MainLoop) → l.Loop
quit_twice l = l.start (l.quit (l.quit l.new_loop))

-- If that loop runs, the program waits in it with its device ACTIVATED; if not, it has exited with
-- status 1 and its device in the state NULL.
abbrev pub IsEnding : {S : Type 0} (l : MainLoop) → Ending (S × l.Loop) → Type 0
IsEnding {S} l e =
    (l.is_running (quit_twice l) ≡ true)
      × ((m : Node (S × l.Loop)) × (e ≡ waits m)
          × (m.state ≡ activated)
          × (m.self.1 ≡ quit_twice l))
    ⊎ (l.is_running (quit_twice l) ≡ false)
      × (m : Node (S × l.Loop)) × (e ≡ exits 1 m)
      × (m.state ≡ null)

returns :
    {A B : Type 0} (m : Run A) (k : A → Run B) (b : B)
    → (m >>= k) ≡ ret b
    → (a : A) × (m ≡ ret a) × (k a ≡ ret b)
returns (ret a) k b e = (a, refl, e)
returns (stop f) k b e = absurd (ground arith)

expected :
    {S : Type 0} (s s' : NodeState) (n m : Node S)
    → expects s (s', n) ≡ ret m
    → n.state ≡ s'
    → (m.state ≡ s) × (m.self ≡ n.self)
unfolding expects
expected null null n m e at = ground arith
expected enrolled enrolled n m e at = ground arith
expected activated activated n m e at = ground arith
expected s s' n m e at = absurd (ground arith)

module _ {S : Type 0} (g : Glib) (l : MainLoop) (klass : Class S) where
  -- A call that goes to a new state quits the loop once.
  run_method-quits :
      (f : Option (Option Text → S → Run (Return × S))) (s : NodeState) (n m : Node (S × l.Loop))
      → run_method g (class_with_loop l klass) (state_changed_quit_cb l) (with_loop l f) s n
        ≡ ret (ok, m)
      → (m.state ≡ s) × (m.self.1 ≡ l.quit n.self.1)
  unfolding run_method with_loop after commit_locked lock unlock state_changed_quit_cb
  run_method-quits none s n m e = absurd (ground arith)
  run_method-quits (some f) s n m e = elim (Run-cases (f n.uid n.self.0)) [
    | inr (x, stopped) ↦ absurd (ground arith)
    | inl ((x, d), ran) ↦ elim (Bool-cases n.locked) [
      | inl held ↦ absurd (ground arith)
      | inr free ↦ ground arith
    ]
  ]

  enroll-quits :
      (n m : Node (S × l.Loop))
      → enroll g (class_with_loop l klass) (state_changed_quit_cb l) false 0 n ≡ ret (ok, m)
      → (m.state ≡ enrolled) × (m.self.1 ≡ l.quit n.self.1)
  unfolding enroll class_with_loop with_loop run_method
  enroll-quits n m e = elim (Option-cases klass.enroll_method) [
    | inl without ↦ absurd (ground arith)
    | inr (f, has) ↦ run_method-quits (some f) enrolled n m (ground arith)
  ]

  activate-quits :
      (n m : Node (S × l.Loop))
      → activate g (class_with_loop l klass) (state_changed_quit_cb l) n ≡ ret (ok, m)
      → (m.state ≡ activated) × (m.self.1 ≡ l.quit n.self.1)
  unfolding activate class_with_loop
  activate-quits n m e = run_method-quits klass.activate_method activated n m (ground arith)

  asserted-ok :
      (q : Run (Return × Node (S × l.Loop))) (m : Node (S × l.Loop))
      → (q >>= asserted) ≡ ret m
      → q ≡ ret (ok, m)
  unfolding asserted
  asserted-ok (ret (x, n)) m e = ground arith
  asserted-ok (stop f) m e = absurd (ground arith)

  expects-same :
      (s : NodeState) (n m : Node (S × l.Loop))
      → (get_state n >>= expects s) ≡ ret m
      → (m.state ≡ s) × (m.self ≡ n.self)
  unfolding get_state lock unlock expects
  expects-same s n m e = elim (Bool-cases n.locked) [
    | inl held ↦ absurd (ground arith)
    | inr free ↦ expected s n.state (unlock (record n { locked = true })) m (ground arith) refl
  ]

  started-quits :
      (n m : Node (S × l.Loop))
      → started g l klass n ≡ ret m
      → (m.state ≡ activated) × (m.self.1 ≡ l.quit (l.quit n.self.1))
  unfolding started
  started-quits n m e =
      let (n₁, known, rest₁) = returns (get_state n >>= expects null) _ m e in
      let (n₂, enrolled_ok, rest₂) =
        returns
          (enroll g (class_with_loop l klass) (state_changed_quit_cb l) false 0 n₁ >>= asserted) _ m
          rest₁ in
      let (n₃, known', rest₃) = returns (get_state n₂ >>= expects enrolled) _ m rest₂ in
      let a = expects-same null n n₁ known in
      let b = enroll-quits n₁ n₂ (asserted-ok _ n₂ enrolled_ok) in
      let c = expects-same enrolled n₂ n₃ known' in
      let d = activate-quits n₃ m (asserted-ok _ m rest₃) in (d.0, ground arith)

  finished-exits :
      (n : Node (S × l.Loop)) (e : Ending (S × l.Loop))
      → finished g l klass n ≡ ret e
      → (m : Node (S × l.Loop)) × (e ≡ exits 1 m) × (m.state ≡ null)
  unfolding finished
  finished-exits n e h =
      let (n₁, _, rest₁) =
        returns (delist g (class_with_loop l klass) (state_changed_quit_cb l) n >>= asserted) _ e
          h in
      let (n₂, known, rest₂) = returns (get_state n₁ >>= expects null) _ e rest₁ in
      (n₂, ground arith, (expects-same null n₁ n₂ known).0)

  turns-waits :
      (ts : List (S → Run S)) (n : Node (S × l.Loop)) (e : Ending (S × l.Loop))
      → l.is_running n.self.1 ≡ true
      → n.state ≡ activated
      → turns g l klass ts n ≡ ret e
      → (m : Node (S × l.Loop)) × (e ≡ waits m) × (m.state ≡ activated) × (m.self.1 ≡ n.self.1)
  unfolding turns
  turns-waits [] n e on at h = (n, ground arith, at, refl)
  turns-waits (dispatch ∷ ts) n e on at h = elim (Run-cases (dispatch n.self.0)) [
    | inr (f, stopped) ↦ absurd (ground arith)
    | inl (s, ran) ↦ turns-waits ts (record n { self = (s, n.self.1) }) e on at (ground arith)
  ]

  turns-left :
      (ts : List (S → Run S)) (n : Node (S × l.Loop)) (e : Ending (S × l.Loop))
      → l.is_running n.self.1 ≡ false
      → turns g l klass ts n ≡ ret e
      → finished g l klass n ≡ ret e
  unfolding turns
  turns-left [] n e off h = ground arith
  turns-left (dispatch ∷ ts) n e off h = elim (Run-cases (dispatch n.self.0)) [
    | inr (f, stopped) ↦ ground arith
    | inl (s, ran) ↦ ground arith
  ]

  -- Let the program, with any device and any turns of its main loop, stop neither at an assertion
  -- nor in a turn. The main loop has then been quit twice, by the enrolment and by the activation,
  -- before g_main_loop_run started it, and never since. If such a loop runs, the device is
  -- ACTIVATED, and the program still waits in the loop, after all the turns, and has not delisted;
  -- if it does not, the program has delisted the device, which is in the state NULL, and has exited
  -- with status 1.
  pub serve-IsEnding :
      (uid : Text) (ts : List (S → Run S)) (n : Node S) (e : Ending (S × l.Loop))
      → serve g l klass uid ts n ≡ ret e
      → IsEnding l e
  unfolding serve run context_setup
  serve-IsEnding uid ts n e h = elim (Bool-cases (same_string n.uid uid)) [
    | inr other ↦ absurd (ground arith)
    | inl mine ↦
        let (m, begun, rest) =
          returns (started g l klass (context_setup l n)) (run g l klass ts) e (ground arith) in
        let (at, loop) = started-quits (context_setup l n) m begun in
        let m' : Node (S × l.Loop) = record m { self = (m.self.0, l.start m.self.1) } in
        let same : m'.self.1 ≡ quit_twice l = ap l.start loop in
        elim (Bool-cases (l.is_running (quit_twice l))) [
          | inl on ↦
              let (k, is, there, kept) = turns-waits ts m' e (ground arith) at rest in
              inl (on, (k, is, there, kept ∙ same))
          | inr off ↦
              let (k, is, there) = finished-exits m' e (turns-left ts m' e (ground arith) rest) in
              inr (off, k, is, there)
        ]
  ]
