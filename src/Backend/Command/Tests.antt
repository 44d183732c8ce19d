-- ===== src/Backend/Command/Tests.antt =====
-- User commands over the sample broker (chamge/amqp-arbiter-backend.c).
use chamge.Prelude.{
  ℕ, ◌<◌, Text, ◌≡◌, refl, true, false, none, some, [], ◌∷◌, codes, ret, stop, unfinished, arith,
  strncmp_eq, cstr, text_eq,
}
use chamge.Types.{ok}
use chamge.Node.{Reply}
use chamge.Amqp.{
  Net, M, done, closes_channel, closes_connection, destroys, receives, listens, publishes, declares,
  opens_channel, logs_in, opens, ◌>>=◌,
}
use chamge.Rpc.{Answer, request_properties, answers, response_of, string_member}
use chamge.Rpc.Await.{receives_more, IsAnswer}
use chamge.Samples.{sample_glib, sample_rabbit, sample_config, message, net, Inbox}
use chamge.Backend.Command.{
  close, received, await, connect, handle_rpc_user_command, over_own_connection, guard_reply,
  to_option, get_queue_name, is_queue_existed, close, user_command, awaits_answer,
}
use chamge.Backend.Command.Wait.{after_messages, await_ends, await_starves}
use chamge.Backend.Command.Closing.{over_own_connection-ok}
use chamge.Backend.Command.Reported.{IsOwn, user_command-ok}

-- A message for another request, and the answer.
abbrev foreign : Inbox
foreign = message (some (codes "8")) (codes "{}") ∷ message none (codes "{}") ∷ []

abbrev inbox : Inbox
inbox = message (some (codes "8")) (codes "{}") ∷ message (some (codes "7a")) (codes "{}") ∷ []

abbrev answer : Answer
answer = record { body = some (codes "{}"); error = none }

foreign_lem :
    received sample_glib sample_rabbit
      (codes "7a")
      (message (some (codes "8")) (codes "{}")).0
      (message (some (codes "8")) (codes "{}")).1
    ≡ none
unfolding received answers strncmp_eq
foreign_lem = refl

anonymous_lem :
    received sample_glib sample_rabbit
      (codes "7a")
      (message none (codes "{}")).0
      (message none (codes "{}")).1
    ≡ none
unfolding received answers
anonymous_lem = refl

answer_lem :
    received sample_glib sample_rabbit
      (codes "7a")
      (message (some (codes "7a")) (codes "{}")).0
      (message (some (codes "7a")) (codes "{}")).1
    ≡ some answer
unfolding received answers strncmp_eq response_of cstr
answer_lem = refl

await_starves_example :
    await sample_glib sample_rabbit 2 tt (codes "7a") (net foreign) ≡ stop unfinished
await_starves_example =
    await_starves sample_glib sample_rabbit tt (codes "7a") 2 (net foreign)
      (foreign_lem, (anonymous_lem, tt))

await_ends_example :
    (t : Net sample_rabbit) × (await sample_glib sample_rabbit 2 tt (codes "7a") (net inbox)
      ≡ ret (done answer, t))
    × (t.world ≡ after_messages sample_glib sample_rabbit tt (codes "7a") 2 inbox)
    × (t.log ≡ receives_more 2 [])
await_ends_example =
    await_ends sample_glib sample_rabbit tt (codes "7a") 1 2 (net inbox) answer (omega arith)
      (foreign_lem, tt) answer_lem

-- A command for the queue "q".
abbrev rpc : Unit {0} → M sample_rabbit Answer
rpc conn =
    handle_rpc_user_command sample_glib sample_rabbit 2 conn 1 (codes "{\"to\":\"q\"}")
      (some (codes "amq.direct"))

abbrev replied : Reply
replied = record { result = ok; out = some (codes "{}"); error = none }

abbrev closed_net : Net sample_rabbit
closed_net = record {
  world = [];
  log =
      destroys
      ∷ closes_connection
      ∷ closes_channel
      ∷ receives
      ∷ receives
      ∷ listens (codes "amq.gen")
      ∷ publishes (codes "amq.direct") (codes "q")
          (request_properties (codes "amq.gen") (codes "7a")) (codes "{\"to\":\"q\"}")
      ∷ declares false []
      ∷ declares true (codes "q")
      ∷ opens_channel
      ∷ logs_in
      ∷ opens
      ∷ [];
}

command_lem :
    over_own_connection sample_glib sample_rabbit sample_config rpc (net inbox)
    ≡ ret (replied, closed_net)
unfolding over_own_connection ◌>>=◌ guard_reply to_option handle_rpc_user_command get_queue_name
    string_member text_eq is_queue_existed await received answers strncmp_eq close response_of cstr
    awaits_answer
command_lem = refl

over_own_connection-ok_example :
    (conn : Unit {0}) × (u v : Net sample_rabbit) × (a : Answer) × (connect sample_glib
        sample_rabbit sample_config
        (net inbox)
      ≡ ret (done conn, u))
    × (rpc conn u ≡ ret (done a, v))
    × (some (codes "{}") ≡ a.body)
    × (none ≡ a.error)
    × (close sample_glib sample_rabbit conn 1
          (record { result = ok; out = a.body; error = a.error })
          v
        ≡ ret (done replied, closed_net))
    × (closed_net.log ≡ destroys ∷ closes_connection ∷ closes_channel ∷ v.log)
over_own_connection-ok_example =
    over_own_connection-ok sample_glib sample_rabbit sample_config rpc (net inbox) closed_net
      replied command_lem refl

reported_lem :
    user_command sample_glib sample_rabbit 2 sample_config (codes "{\"to\":\"q\"}") (net inbox)
    ≡ ret (replied, closed_net)
unfolding user_command
reported_lem = command_lem

user_command-ok_example :
    (queue reply_queue uuid : Text) × (n : ℕ) × (a : Answer) × (get_queue_name sample_glib
        sample_rabbit
        (codes "{\"to\":\"q\"}")
      ≡ some queue)
    × IsOwn sample_glib sample_rabbit sample_config 2
        (codes "{\"to\":\"q\"}")
        (net inbox)
        closed_net
        replied
        a
    × (closed_net.log
        ≡ destroys
          ∷ closes_connection
          ∷ closes_channel
          ∷ receives_more n (
              listens reply_queue
              ∷ publishes
                  (codes "amq.direct")
                  queue
                  (request_properties reply_queue uuid)
                  (codes "{\"to\":\"q\"}")
              ∷ declares false []
              ∷ declares true queue
              ∷ opens_channel
              ∷ logs_in
              ∷ opens
              ∷ []))
    × (0 < n)
    × (some (codes "{}") ≡ a.body)
    × (none ≡ a.error)
    × IsAnswer sample_rabbit uuid a
user_command-ok_example =
    user_command-ok sample_glib sample_rabbit sample_config 2 (codes "{\"to\":\"q\"}") (net inbox)
      closed_net replied reported_lem refl
