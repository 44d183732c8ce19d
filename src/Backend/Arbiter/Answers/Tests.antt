-- ===== src/Backend/Arbiter/Answers/Tests.antt =====
-- The sample parser reads every plain result, and the answer to an edge that enrols
-- (chamge/amqp-arbiter-backend.c).
use chamge.Prelude.{◌≡◌, ◌↔◌, refl, some, [], ◌∷◌, ◌++◌, List, Text, codes, text_eq, arith}
use chamge.Types.{ok}
use chamge.Rpc.{string_member, validate_response}
use chamge.Samples.{sample_glib, parts}
use chamge.Backend.Arbiter.{Handlers, result_text, process_json_message}
use chamge.Backend.Arbiter.Answers.{IsPlain, ReadsResult, ReadsPlain, enrolling, answer_of, IsMade}
use chamge.Backend.Arbiter.Answers.Accepted.{accepted-IsMade}

parts-plain : (t : Text) → IsPlain t → parts (t ++ codes "\"}") ≡ t ∷ codes "}" ∷ []
parts-plain [] p = refl
parts-plain (x ∷ t) p = ground (arith, parts-plain t p.4)

sample_reads : (t : Text) → IsPlain t → ReadsResult sample_glib t
unfolding string_member text_eq result_text
sample_reads t p = record {
  answer = codes "result" ∷ t ∷ [];
  loaded = rw (parts-plain t p) refl;
  reads_result = refl;
}

sample_plain : ReadsPlain sample_glib
sample_plain = record { reads = sample_reads }

-- Handlers that keep the ids of the edges that enrolled.
abbrev notes : Handlers (List Text)
notes = record {
  edge_enrolled = λ uid x. uid ∷ x;
  edge_delisted = λ uid x. x;
  hub_enrolled = λ uid x. x;
  hub_delisted = λ uid x. x;
}

abbrev message : Text
message = codes "{\"deviceType\":\"edge\",\"method\":\"enroll\",\"edgeId\":\"e1\"}"

abbrev document : List Text
document =
    codes "deviceType"
    ∷ codes "edge"
    ∷ codes "method"
    ∷ codes "enroll"
    ∷ codes "edgeId"
    ∷ codes "e1"
    ∷ []

accepted-IsMade_example :
    (validate_response sample_glib
        (some (process_json_message notes sample_glib message []).0)
        (answer_of enrolling)
      ≡ ok)
    ↔ IsMade notes sample_glib document
        (codes "edge")
        (codes "enroll")
        enrolling
        []
        (process_json_message notes sample_glib message []).1
unfolding string_member text_eq
accepted-IsMade_example =
    accepted-IsMade notes sample_glib sample_plain enrolling message document (codes "edge")
      (codes "enroll") [] refl refl refl (omega arith) (omega arith)
