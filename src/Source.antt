-- ===== src/Source.antt =====
-- chamge/amqp-source.c: the event source that hands the messages of a connection to a callback.
pub mod Loop
pub mod Tests
use chamge.Prelude.{
  ℕ, List, [], ◌>>=◌, Bool, true, false, ◌||◌, Option, none, some, ◌∷◌, if◌then◌else◌, Run, ret,
}
use chamge.Amqp.{Rabbit, Net, RpcReply, Envelope, receives}
use chamge.Rpc.{is_timeout}

-- The conditions of the socket that `pollfd.revents` reports.
pub record Conditions : Type 0 where
  pub io_in : Bool
  pub io_hup : Bool
  pub io_err : Bool

-- What `prepare` leaves in `*timeout`.
pub data PollTimeout : Type 0 where
  unchanged forever : PollTimeout

pub source_check : Conditions → Bool
source_check c = c.io_in || (c.io_hup || c.io_err)

module _ (r : Rabbit) where
  pub source_prepare : r.Connection → Net r → Bool × PollTimeout
  source_prepare conn s =
      if r.frames_enqueued conn s.world then (true, unchanged) else (false, forever)

  -- The callback of the source, if it is set; `S` is what it acts on. The result is whether the
  -- source is kept.
  unfoldable pub source_dispatch :
      {S : Type 0}
      → r.Connection
      → Option (RpcReply → Envelope → S × Net r → Run (Bool × S × Net r))
      → S × Net r
      → Run (Bool × S × Net r)
  source_dispatch conn none (x, s) = ret (false, x, s)
  source_dispatch conn (some handler) (x, s) =
      let ((reply, envelope), w) = r.consume_message conn s.world in
      let s' : Net r = record { world = w; log = receives ∷ s.log } in
      if is_timeout reply then ret (true, x, s') else handler reply envelope (x, s')

  -- chamge_amqp_add_watch: 0 for no callback, else the id of the new source.
  pub add_watch :
      {S : Type 0}
      → Option (RpcReply → Envelope → S × Net r → Run (Bool × S × Net r))
      → Net r
      → ℕ × Net r
  add_watch none s = (0, s)
  add_watch (some handler) s = let (id, w) = r.source_add s.world in (id, record s { world = w })

  -- What the main loop does with a source in one iteration, in which poll reports `c`: it
  -- dispatches the source if it is ready before or after.
  pub iteration :
      {S : Type 0}
      → r.Connection
      → Option (RpcReply → Envelope → S × Net r → Run (Bool × S × Net r))
      → Conditions
      → S × Net r
      → Run (Bool × S × Net r)
  unfolding source_dispatch source_prepare source_check
  iteration conn handler c (x, s) =
      if (source_prepare conn s).0 || source_check c
      then source_dispatch conn handler (x, s)
      else ret (true, x, s)

  -- The iterations of the main loop until the source is removed.
  unfoldable pub iterations :
      {S : Type 0}
      → r.Connection
      → Option (RpcReply → Envelope → S × Net r → Run (Bool × S × Net r))
      → List Conditions
      → S × Net r
      → Run (Bool × S × Net r)
  iterations conn handler [] (x, s) = ret (true, x, s)
  iterations conn handler (c ∷ cs) (x, s) = iteration conn handler c (x, s) >>= λ (kept, x', s').
      elim kept [ false ↦ ret (false, x', s') | true ↦ iterations conn handler cs (x', s') ]
