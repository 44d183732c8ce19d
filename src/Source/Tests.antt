-- ===== src/Source/Tests.antt =====
-- A dispatch over the sample broker (chamge/amqp-source.c).
use chamge.Prelude.{
  ℕ, suc, ◌≡◌, ◌⊎◌, refl, true, false, Option, none, some, [], ◌∷◌, Text, codes, Run, ret,
}
use chamge.Amqp.{Net, receives}
use chamge.Samples.{sample_glib, sample_rabbit, message, net, Inbox}
use chamge.Backend.{Object, handle_message, checked, valid_content_type}
use chamge.Backend.Edge.{process_amqp_message}
use chamge.Source.{Conditions, source_dispatch, iterations, iteration}
use chamge.Source.Loop.{Runs, iterations-Runs}

abbrev counts : Text → ℕ × Net sample_rabbit → Run (Option Text × ℕ × Net sample_rabbit)
counts cmd (n, s) = ret (none, suc n, s)

abbrev idle : Object sample_rabbit
idle = record { amqp_conn = tt; activated = false; process_id = 1 }

abbrev inbox : Inbox
inbox = message none (codes "{}") ∷ []

abbrev received_net : Net sample_rabbit
received_net = record { world = []; log = receives ∷ [] }

dispatch_lem :
    source_dispatch sample_rabbit tt
      (some (process_amqp_message sample_glib sample_rabbit counts idle))
      (0, net inbox)
    ≡ ret (false, 0, received_net)
unfolding source_dispatch process_amqp_message
dispatch_lem = refl

abbrev readable : Conditions
readable = record { io_in = true; io_hup = false; io_err = false }

abbrev quiet : Conditions
quiet = record { io_in = false; io_hup = false; io_err = false }

abbrev taken_twice : Net sample_rabbit
taken_twice = record { world = []; log = receives ∷ receives ∷ [] }

iterations_lem :
    iterations sample_rabbit tt
      (some (process_amqp_message sample_glib sample_rabbit counts idle))
      (readable ∷ readable ∷ [])
      (0, net inbox)
    ≡ ret (false, 0, received_net)
unfolding iterations iteration process_amqp_message
iterations_lem = refl

abbrev active : Object sample_rabbit
active = record { amqp_conn = tt; activated = true; process_id = 1 }

-- A message that is not a request, and then nothing.
active_lem :
    iterations sample_rabbit tt
      (some (process_amqp_message sample_glib sample_rabbit counts active))
      (readable ∷ quiet ∷ readable ∷ [])
      (0, net inbox)
    ≡ ret (true, 0, taken_twice)
unfolding iterations iteration process_amqp_message handle_message checked valid_content_type
active_lem = refl

iterations-Runs_example :
    Runs sample_glib sample_rabbit counts tt active
      (readable ∷ quiet ∷ readable ∷ [])
      0
      (net inbox)
      true
      0
      taken_twice
    × ((active.activated ≡ true) × (true ≡ true) ⊎ (active.activated ≡ false) × (◌≡◌ {A = ℕ} 0 0))
iterations-Runs_example =
    iterations-Runs sample_glib sample_rabbit counts tt active (readable ∷ quiet ∷ readable ∷ []) 0
      0 (net inbox) taken_twice true active_lem
