-- ===== src/Agent/Bus.antt =====
-- The calls that come to the arbiter agent over D-Bus, and what a history of them does to its
-- arbiter (agent/arbiter-agent.c).
use chamge.Prelude.{
  ◌≡◌, Bool, true, false, Run, ret, stop, ◌>>=◌, arith, Run-cases, Bool-cases, ◌⊎◌, inl, inr, subst,
  sym,
}
use chamge.Types.{Return, ok, NodeState}
use chamge.Glib.{Glib}
use chamge.Node
use chamge.Node.{Node, Class, Handler, get_state, lock, unlock}
use chamge.Node.Calls.{
  Call, enrolls, delists, activates, deactivates, call, calls, Reach, here, next,
}
use chamge.Agent.{enroll, activate, deactivate, delist, must_be_ok, startup}

-- The signals of the skeleton but "handle-user-command", which does not touch the state.
pub data ManagerCall : Type 0 where
  handle_enroll handle_delist handle_activate handle_deactivate : ManagerCall

module _ {S : Type 0} (g : Glib) (klass : Class S) (h : Handler S) where
  operation : ManagerCall → Node S → Run (Return × Node S)
  operation handle_enroll n = enroll g klass h n
  operation handle_delist n = delist g klass h n
  operation handle_activate n = activate g klass h n
  operation handle_deactivate n = deactivate g klass h n

  -- The call is completed alike whatever the operation returned; the Boolean is TRUE.
  unfoldable pub handle : ManagerCall → Node S → Run (Bool × Node S)
  unfolding operation
  handle c n = operation c n >>= λ p. ret (true, p.1)

  pub data History (n : Node S) : Node S → Type 0 where
    start : History n n
    handles :
        {m : Node S} (c : ManagerCall) (k : Node S) (done : Bool)
        → History n m
        → handle c m ≡ ret (done, k)
        → History n k

  get_state-same :
      (n m : Node S) (s : NodeState) → get_state n ≡ ret (s, m) → (s ≡ n.state) × (m ≡ n)
  unfolding get_state lock unlock
  get_state-same n m s e = elim (Bool-cases n.locked) [
    | inl held ↦ absurd (ground arith)
    | inr free ↦ ground arith
  ]

  must_be_ok-same :
      (m : Run (Return × Node S)) (x : Return) (k : Node S)
      → (m >>= must_be_ok) ≡ ret (x, k)
      → (x ≡ ok) × (m ≡ ret (ok, k))
  unfolding must_be_ok
  must_be_ok-same (stop f) x k e = absurd (ground arith)
  must_be_ok-same (ret (y, j)) x k e = ground arith

  enroll-runs :
      (n m : Node S) (x : Return)
      → enroll g klass h n ≡ ret (x, m)
      → (m ≡ n) ⊎ (x ≡ ok) × (call g klass h enrolls n ≡ ret (ok, m))
  unfolding enroll call
  enroll-runs n m x e = elim (Run-cases (get_state n)) [
    | inr (f, stopped) ↦ absurd (ground arith)
    | inl ((s, k), read) ↦
        let known = get_state-same n k s read in
        let ran = must_be_ok-same (Node.enroll g klass h false 0 k) x m in ground arith
  ]

  activate-runs :
      (n m : Node S) (x : Return)
      → activate g klass h n ≡ ret (x, m)
      → (m ≡ n) ⊎ (x ≡ ok) × (call g klass h activates n ≡ ret (ok, m))
  unfolding activate call
  activate-runs n m x e = elim (Run-cases (get_state n)) [
    | inr (f, stopped) ↦ absurd (ground arith)
    | inl ((s, k), read) ↦
        let known = get_state-same n k s read in
        let ran = must_be_ok-same (Node.activate g klass h k) x m in ground arith
  ]

  -- The call of the node that an operation of the agent makes.
  abbrev meant : ManagerCall → Call
  meant handle_enroll = enrolls
  meant handle_delist = delists
  meant handle_activate = activates
  meant handle_deactivate = deactivates

  operation-runs :
      (c : ManagerCall) (n m : Node S) (x : Return)
      → operation c n ≡ ret (x, m)
      → (m ≡ n) ⊎ (call g klass h (meant c) n ≡ ret (x, m))
  unfolding operation call delist deactivate
  operation-runs handle_enroll n m x e = ground (arith, enroll-runs n m x e)
  operation-runs handle_delist n m x e = inr e
  operation-runs handle_activate n m x e = ground (arith, activate-runs n m x e)
  operation-runs handle_deactivate n m x e = inr e

  operation-Reach :
      {n : Node S} (c : ManagerCall) (m k : Node S) (x : Return)
      → Reach g klass h n m
      → operation c m ≡ ret (x, k)
      → Reach g klass h n k
  operation-Reach {n} c m k x before e = elim (operation-runs c m k x e) [
    | inl same ↦ subst (Reach g klass h n) (sym same) before
    | inr ran ↦ next before (calls (meant c) x ran)
  ]

  -- A start of the agent is a history of calls of the node.
  pub startup-Reach : (n m : Node S) → startup g klass h n ≡ ret m → Reach g klass h n m
  unfolding startup operation
  startup-Reach n m e = elim (Run-cases (enroll g klass h n)) [
    | inr (f, stopped) ↦ absurd (ground arith)
    | inl ((x, k), first) ↦ elim (Run-cases (activate g klass h k)) [
      | inr (f, stopped) ↦ absurd (ground arith)
      | inl ((y, j), second) ↦
          let same : j ≡ m = ground arith in
          subst (Reach g klass h n) same (
            operation-Reach handle_activate k j y (operation-Reach handle_enroll n k x here first)
              second)
    ]
  ]

  handle-Reach :
      {n : Node S} (c : ManagerCall) (m k : Node S) (done : Bool)
      → Reach g klass h n m
      → handle c m ≡ ret (done, k)
      → Reach g klass h n k
  unfolding handle
  handle-Reach {n} c m k done before e = elim (Run-cases (operation c m)) [
    | inr (f, stopped) ↦ absurd (ground arith)
    | inl ((x, j), ran) ↦
        let same : j ≡ k = ground arith in
        subst (Reach g klass h n) same (operation-Reach c m j x before ran)
  ]

  -- So is a history of calls over D-Bus.
  pub History-Reach : {n m k : Node S} → Reach g klass h n m → History m k → Reach g klass h n k
  History-Reach before start = before
  History-Reach before (handles c k done rest e) =
      handle-Reach c _ k done (History-Reach before rest) e
