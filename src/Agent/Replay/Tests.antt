-- ===== src/Agent/Replay/Tests.antt =====
-- Two edges enrol and one delists (agent/arbiter-agent.c).
use chamge.Prelude.{
  ◌≡◌, ◌⊎◌, refl, true, false, none, some, [], ◌∷◌, List, Text, codes, text_eq, Run, ret, ◌>>=◌,
}
use chamge.Types.{ok, fail}
use chamge.Node.{Reply}
use chamge.Samples.{sample_glib}
use chamge.Agent.{is_enrolled, for_edge, dbus_reply, handle_user_command}
use chamge.Agent.Requests.{IsSound}
use chamge.Agent.Replay.{
  ArbiterSignal, edge_enrolled, edge_delisted, edge, nobody, replay, last_word, replay-last_word,
  handle_user_command-replay,
}

abbrev signals : List ArbiterSignal
signals = edge_enrolled (codes "a") ∷ edge_enrolled (codes "b") ∷ edge_delisted (codes "a") ∷ []

replay-last_word_example :
    IsSound (replay signals nobody)
    × (is_enrolled (replay signals nobody).edges (some (codes "b"))
        ≡ last_word edge (codes "b") signals (is_enrolled [] (some (codes "b"))))
replay-last_word_example = replay-last_word edge (codes "b") signals nobody (tt, tt)

abbrev obeys : Text → Unit {0} → Run (Reply × Unit {0})
obeys cmd s = ret (record { result = ok; out = none; error = none }, tt)

abbrev cmd : Text
cmd = codes "{\"method\":\"getUrl\",\"to\":\"b\"}"

handle_user_command-replay_example :
    (last_word edge (codes "b") signals false ≡ true)
      × (handle_user_command sample_glib obeys (replay signals nobody) cmd tt
          ≡ (obeys cmd tt >>= λ (p, s'). ret (dbus_reply p, s')))
    ⊎ (last_word edge (codes "b") signals false ≡ false)
      × (text : Text) × (handle_user_command sample_glib obeys (replay signals nobody) cmd tt
          ≡ ret (record { status = fail; response = some text }, tt))
unfolding for_edge text_eq
handle_user_command-replay_example =
    handle_user_command-replay sample_glib obeys signals cmd (codes "b")
      (codes "method" ∷ codes "getUrl" ∷ codes "to" ∷ codes "b" ∷ []) (some (codes "getUrl")) tt
      refl refl refl

-- The delisting of "a" comes before the enrolment of "b".
abbrev other_order : List ArbiterSignal
other_order = edge_enrolled (codes "a") ∷ edge_delisted (codes "a") ∷ edge_enrolled (codes "b") ∷ []
