-- ===== src/Rpc/Tests.antt =====
-- Remote calls over the sample broker (chamge/amqp-edge-backend.c).
use chamge.Prelude.{
  ℕ, ◌+◌, ◌≤◌, ◌<◌, ◌≡◌, ◌≢◌, ◌↔◌, refl, true, none, some, List, [], ◌∷◌, Text, codes, strncmp_eq,
  strlen_reaches, false, ret, arith, cstr, text_eq,
}
use chamge.Types.{ok, operation_failure}
use chamge.Amqp.{
  Net, Event, done, declares, binds, publishes, listens, receives, opens, logs_in, opens_channel,
  ◌>>=◌,
}
use chamge.Samples.{sample_glib, sample_rabbit, message, net, Inbox}
use chamge.Rpc.{
  Answer, rpc_request, await, request_properties, validate_response, string_member, answers,
  received, is_queue_existed, require_reply, declare_queue, publish, listen, guard_reply,
  response_of, rpc_login, error_of, rpc_subscribe,
}
use chamge.Rpc.Await.{IsAnswer, receives_more, await_returns}
use chamge.Rpc.Trace.{rpc_request-done}
use chamge.Rpc.Responses.{answers_iff, validate_response_iff}

-- A message for another request, and the answer.
abbrev inbox : Inbox
inbox =
    message (some (codes "8")) (codes "{}")
    ∷ message (some (codes "7a")) (codes "{\"result\":\"enrolled\"}")
    ∷ []

abbrev answer : Answer
answer = record { body = some (codes "{\"result\":\"enrolled\"}"); error = none }

abbrev after_request : Net sample_rabbit
after_request = record {
  world = [];
  log =
      receives
      ∷ receives
      ∷ listens (codes "amq.gen")
      ∷ publishes (codes "x") (codes "enroll") (request_properties (codes "amq.gen") (codes "7a"))
          (codes "{}")
      ∷ declares false []
      ∷ declares true (codes "enroll")
      ∷ [];
}

rpc_request_lem :
    rpc_request sample_glib sample_rabbit tt 1
      (codes "{}")
      (some (codes "x"))
      (some (codes "enroll"))
      (net inbox)
    ≡ ret (done answer, after_request)
unfolding rpc_request ◌>>=◌ await received answers is_queue_existed require_reply declare_queue
    publish listen guard_reply strncmp_eq response_of cstr
rpc_request_lem = refl

-- A queue that is named, and what the request has sent.
rpc_request-done_example :
    (queue reply_queue cid : Text) × (n : ℕ) × (◌≢◌ {A = ℕ} 1 0)
    × (some (codes "enroll") ≡ some queue)
    × (after_request.log
        ≡ receives_more n (
            listens reply_queue
            ∷ publishes (codes "x") queue (request_properties reply_queue cid) (codes "{}")
            ∷ declares false []
            ∷ declares true queue
            ∷ []))
    × (0 < n)
    × (n ≤ 11)
    × IsAnswer sample_rabbit cid answer
rpc_request-done_example =
    rpc_request-done sample_glib sample_rabbit tt 1 (codes "{}") (some (codes "x"))
      (some (codes "enroll")) (net inbox) after_request answer rpc_request_lem

await_returns_example :
    (a : Answer) × (t : Net sample_rabbit) × (n : ℕ) × (await sample_glib sample_rabbit 12 0 tt
        (codes "7a")
        (net inbox)
      ≡ ret (done a, t))
    × (t.log ≡ receives_more n [])
    × (n + 0 ≤ 11)
    × (0 ≤ 10 → 0 < n)
    × IsAnswer sample_rabbit (codes "7a") a
await_returns_example =
    await_returns sample_glib sample_rabbit 12 0 tt (codes "7a") (net inbox) (omega arith)
      (omega arith)

-- The empty id.
answers_iff_example :
    (answers (codes "7a") (message (some []) (codes "{}")).1 ≡ true)
    ↔ ((rest : Text) × (codes "7a" ≡ rest))
unfolding strlen_reaches
answers_iff_example = answers_iff (codes "7a") [] (message (some []) (codes "{}")).1 refl refl

validate_response_iff_example :
    (validate_response sample_glib (some (codes "{\"result\":\"enrolled\"}")) (codes "enrolled")
      ≡ ok)
    ↔ ((body : Text) × (doc : List Text) × (some (codes "{\"result\":\"enrolled\"}") ≡ some body)
        × (sample_glib.load body ≡ some doc)
        × (string_member sample_glib doc (codes "result") ≡ some (codes "enrolled")))
validate_response_iff_example =
    validate_response_iff sample_glib (some (codes "{\"result\":\"enrolled\"}")) (codes "enrolled")

-- The sample broker accepts a login; `l` is the log before.
pub rpc_login_sample :
    (l : List Event)
    → rpc_login sample_glib sample_rabbit tt (codes "amqp://") 1 (record { world = []; log = l })
      ≡ ret (done tt, record { world = []; log = opens_channel ∷ logs_in ∷ opens ∷ l })
unfolding rpc_login ◌>>=◌ guard_reply
rpc_login_sample l = refl

-- A request that no message follows: the wait ends by its timeout.
abbrev pub late : Answer
late = record { body = none; error = error_of operation_failure (codes "consume msg timeout") }

pub rpc_request_unanswered :
    (request : Text) (l : List Event)
    → rpc_request sample_glib sample_rabbit tt 1 request
        (some (codes "amq.direct"))
        (some (codes "enroll"))
        (record { world = []; log = l })
      ≡ ret (
        done late,
        record {
          world = [];
          log =
              receives
              ∷ listens (codes "amq.gen")
              ∷ publishes
                  (codes "amq.direct")
                  (codes "enroll")
                  (request_properties (codes "amq.gen") (codes "7a"))
                  request
              ∷ declares false []
              ∷ declares true (codes "enroll")
              ∷ l;
        },
      )
unfolding rpc_request ◌>>=◌ await received is_queue_existed require_reply declare_queue publish
    listen guard_reply
rpc_request_unanswered request l = refl

abbrev pub after_subscription : List Event → Net sample_rabbit
after_subscription l = record {
  world = [];
  log =
      listens (codes "e1")
      ∷ binds (codes "amq.direct") (codes "e1") (codes "e1")
      ∷ declares false (codes "e1")
      ∷ l;
}

rpc_subscribe_sample :
    (l : List Event)
    → rpc_subscribe sample_glib sample_rabbit tt 1
        (codes "amq.direct")
        (codes "e1")
        (record { world = []; log = l })
      ≡ ret (done tt, after_subscription l)
unfolding rpc_subscribe ◌>>=◌ declare_queue require_reply text_eq guard_reply listen
rpc_subscribe_sample l = refl

-- The request of an edge to be activated, and the answer to it.
abbrev pub activating : Inbox
activating = message (some (codes "7a")) (codes "{\"result\":\"activated\"}") ∷ []
