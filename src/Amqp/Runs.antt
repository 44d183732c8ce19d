-- ===== src/Amqp/Runs.antt =====
-- Inversion of the steps of a call (chamge/amqp-edge-backend.c and its siblings): what is known
-- when one returns.
use chamge.Prelude.{
  Bool, true, false, ◌≡◌, refl, ap, sym, ◌∙◌, List, Option, some, none, ◌∷◌, Run, ret, stop, arith,
}
use chamge.Types.{Error}
use chamge.Amqp.{
  Rabbit, Net, Event, Outcome, done, failed, M, send, ask, continue, ◌>>=◌, guard, require, pure,
}

module _ {r : Rabbit} {A B : Type 0} where
  pub >>=-done :
      (m : M r A) (f : A → M r B) (s t : Net r) (b : B)
      → (m >>= f) s ≡ ret (done b, t)
      → (a : A) × (u : Net r) × (m s ≡ ret (done a, u)) × (f a u ≡ ret (done b, t))
  unfolding ◌>>=◌
  >>=-done m f s t b h = go (m s) refl h
    where
      go :
          (x : Run (Outcome A × Net r))
          → m s ≡ x
          → continue f x ≡ ret (done b, t)
          → (a : A) × (u : Net r) × (m s ≡ ret (done a, u)) × (f a u ≡ ret (done b, t))
      go (stop e) p q = absurd (ground arith)
      go (ret (failed e, u)) p q = absurd (ground arith)
      go (ret (done a, u)) p q = (a, u, p, q)

module _ {r : Rabbit} {A : Type 0} where
  pub require-done :
      (o : Option A) (e : Option Error) (s t : Net r) (a : A)
      → require o e s ≡ ret (done a, t)
      → (o ≡ some a) × (s ≡ t)
  unfolding require
  require-done (some x) e s t a h = ground arith
  require-done none e s t a h = ground arith

  pub send-log :
      (e : Event) (f : r.World → A × r.World) (s t : Net r) (a : A)
      → send r e f s ≡ ret (done a, t)
      → t.log ≡ e ∷ s.log
  unfolding send
  send-log e f s t a h = ground arith

  pub ask-log :
      (f : r.World → A × r.World) (s t : Net r) (a : A)
      → ask r f s ≡ ret (done a, t)
      → t.log ≡ s.log
  unfolding ask
  ask-log f s t a h = ground arith

pub guard-done :
    {r : Rabbit} (b : Bool) (e : Option Error) (s t : Net r) (x : Unit {0})
    → guard b e s ≡ ret (done x, t)
    → (b ≡ true) × (s ≡ t)
unfolding guard
guard-done true e s t x h = ground arith
guard-done false e s t x h = ground arith

pub pure-done :
    {r : Rabbit} {A : Type 0} (a b : A) (s t : Net r)
    → pure a s ≡ ret (done b, t)
    → (a ≡ b) × (s ≡ t)
unfolding pure
pure-done a b s t h = ground arith

pub log-eq : {r : Rabbit} (s t : Net r) → s ≡ t → t.log ≡ s.log
log-eq s t e = ap (λ n. n.log) (sym e)

-- A call sends one event more.
infixr 6 ◌after◌
pub ◌after◌ : {e : Event} {l m k : List Event} → l ≡ e ∷ m → m ≡ k → l ≡ e ∷ k
◌after◌ {e} p q = p ∙ ap (λ l. e ∷ l) q
