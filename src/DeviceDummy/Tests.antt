-- ===== src/DeviceDummy/Tests.antt =====
-- A session over a device that accepts everything, with one turn of the main loop
-- (examples/edge-dummy.c, examples/hub-dummy.c).
use chamge.Prelude.{◌≡◌, refl, Bool, true, false, some, [], ◌∷◌, Text, codes, ret, text_eq}
use chamge.Types.{activated}
use chamge.Samples.{sample_glib}
use chamge.Node.{Node, init, class_init}
use chamge.DeviceDummy.{
  MainLoop, Ending, waits, serve, started, turns, run, finished, class_with_loop, with_loop,
  state_changed_quit_cb, context_setup, asserted, expects,
}
use chamge.DeviceDummy.Waiting.{IsEnding, serve-IsEnding}

abbrev flag : MainLoop
flag = record {
  Loop = Bool;
  new_loop = false;
  quit = λ x. false;
  start = λ x. true;
  is_running = λ x. x;
}

-- After one turn, that sets the private data to "a".
abbrev waiting : Ending (Text × Bool)
waiting = waits (record {
  uid = some (codes "e1");
  state = activated;
  locked = false;
  timers = [];
  self = (codes "a", true);
})

serve_lem :
    serve sample_glib flag class_init
      (codes "e1")
      ((λ s. ret (codes "a")) ∷ [])
      (init (some (codes "e1")) [])
    ≡ ret waiting
unfolding serve started turns run finished class_with_loop with_loop state_changed_quit_cb
    context_setup asserted expects init class_init chamge.Node.get_state chamge.Node.lock
    chamge.Node.unlock chamge.Node.enroll chamge.Node.activate chamge.Node.run_method
    chamge.Node.default_method chamge.Node.commit_locked chamge.Node.after chamge.Rpc.same_string
    text_eq
serve_lem = refl

serve-IsEnding_example : IsEnding flag waiting
serve-IsEnding_example =
    serve-IsEnding sample_glib flag class_init (codes "e1") ((λ s. ret (codes "a")) ∷ [])
      (init (some (codes "e1")) []) waiting serve_lem
