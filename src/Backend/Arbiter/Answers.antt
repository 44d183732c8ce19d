-- ===== src/Backend/Arbiter/Answers.antt =====
-- The results that the arbiter answers with (`_process_json_message` of
-- chamge/amqp-arbiter-backend.c), and which a device accepts (`_validate_response` of
-- chamge/amqp-edge-backend.c).
pub mod Accepted
pub mod Tests
use chamge.Prelude.{
  ℕ, ◌<◌, ◌≡◌, ◌≢◌, ◌⊎◌, ◌↔◌, inl, inr, refl, sym, ap, ◌∙◌, Bool, true, false, Option, some, none,
  List, [], ◌∷◌, ◌++◌, Text, codes, text_eq, text_eq_iff, if◌then◌else◌, arith, Bool-cases,
  Option-cases,
}
use chamge.Types.{ok}
use chamge.Glib.{Glib}
use chamge.Rpc.{string_member, validate_response}
use chamge.Rpc.Responses.{validate_response_iff}
use chamge.Backend.Arbiter.{
  Handlers, edge_request, hub_request, device_request, result_text, process_json_message,
}
use chamge.Backend.Arbiter.Requests.{
  edge_asks, hub_asks, edge_request_enroll, edge_request_delist, hub_request_enroll,
  hub_request_delist,
}

-- A byte that JSON prints as itself: printable ASCII but for the quote and the backslash.
abbrev pub IsPlain : Text → Type 0
IsPlain [] = Unit {0}
IsPlain (x ∷ t) = (31 < x) × (x < 127) × (x ≢ 34) × (x ≢ 92) × IsPlain t

IsPlain-append : (s t : Text) → IsPlain s → IsPlain t → IsPlain (s ++ t)
IsPlain-append [] t p q = q
IsPlain-append (x ∷ s) t (a, b, c, d, p) q = (a, b, c, d, IsPlain-append s t p q)

-- That the parser reads an answer of the arbiter with the given result.
pub record ReadsResult (g : Glib) (text : Text) : Type 0 where
  pub answer : g.Document
  pub loaded : g.load (result_text text) ≡ some answer
  pub reads_result : string_member g answer (codes "result") ≡ some text

-- That it reads every result that is plain text.
pub record ReadsPlain (g : Glib) : Type 0 where
  pub reads : (text : Text) → IsPlain text → ReadsResult g text

module _ (g : Glib) where
  pub accepted_answer :
      (text : Text) → ReadsResult g text → validate_response g (some (result_text text)) text ≡ ok
  accepted_answer text w =
      (validate_response_iff g (some (result_text text)) text).1
        (result_text text, w.answer, refl, w.loaded, w.reads_result)

  -- Of two plain results the one is accepted for the other only if they are the same.
  accepted_same :
      (text shouldbe : Text)
      → ReadsResult g text
      → validate_response g (some (result_text text)) shouldbe ≡ ok
      → text ≡ shouldbe
  accepted_same text shouldbe w e =
      let (response, doc, here, loads, says) =
        (validate_response_iff g (some (result_text text)) shouldbe).0 e in
      ground (arith, w.loaded, w.reads_result)

-- The two requests that change what the arbiter knows.
pub data Change : Type 0 where
  enrolling delisting : Change

abbrev pub method_of : Change → Text
method_of enrolling = codes "enroll"
method_of delisting = codes "delist"

abbrev pub answer_of : Change → Text
answer_of enrolling = codes "enrolled"
answer_of delisting = codes "delisted"

answer_of-IsPlain : (c : Change) → IsPlain (answer_of c)
answer_of-IsPlain enrolling = omega arith
answer_of-IsPlain delisting = omega arith

-- The result that the arbiter gives for a method.
abbrev result_of : Text → Text
result_of method =
    if text_eq method (codes "enroll")
    then codes "enrolled"
    else if text_eq method (codes "activate")
    then codes "activated"
    else if text_eq method (codes "deactivate")
    then codes "deactivated"
    else if text_eq method (codes "delist")
    then codes "delisted"
    else codes "method(" ++ (method ++ codes ") is not supported")

IsPlain-literal :
    IsPlain (codes "enrolled")
    × IsPlain (codes "activated")
    × IsPlain (codes "deactivated")
    × IsPlain (codes "delisted")
    × IsPlain (codes "method(")
    × IsPlain (codes ") is not supported")
IsPlain-literal = omega arith

result_of-IsPlain : (method : Text) → IsPlain method → IsPlain (result_of method)
result_of-IsPlain method p =
    let (e, a, d, l, m, s) = IsPlain-literal in
    ground (
      arith,
      IsPlain-append (codes "method(") (method ++ codes ") is not supported") m
          (IsPlain-append method (codes ") is not supported") p s),
    )

result_of-answer_of :
    (c : Change) (method : Text) → result_of method ≡ answer_of c → method ≡ method_of c
result_of-answer_of enrolling method e = ground (arith, text_eq_iff method (codes "enroll"))
result_of-answer_of delisting method e = ground (arith, text_eq_iff method (codes "delist"))

module _ {S : Type 0} (h : Handlers S) where
  abbrev pub edge_change : Change → Text → S → S
  edge_change enrolling = h.edge_enrolled
  edge_change delisting = h.edge_delisted

  abbrev pub hub_change : Change → Text → S → S
  hub_change enrolling = h.hub_enrolled
  hub_change delisting = h.hub_delisted

  edge_request-result :
      (method uid : Text) (x : S) → (edge_request h method uid x).0 ≡ result_text (result_of method)
  unfolding edge_request result_text
  edge_request-result method uid x = ground arith

  hub_request-result :
      (method uid : Text) (x : S) → (hub_request h method uid x).0 ≡ result_text (result_of method)
  unfolding hub_request result_text
  hub_request-result method uid x = ground arith

  edge_request-change :
      (c : Change) (method uid : Text) (x : S)
      → method ≡ method_of c
      → edge_request h method uid x ≡ (result_text (answer_of c), edge_change c uid x)
  edge_request-change enrolling method uid x e =
      ap (λ z. edge_request h z uid x) e ∙ edge_request_enroll h uid x
  edge_request-change delisting method uid x e =
      ap (λ z. edge_request h z uid x) e ∙ edge_request_delist h uid x

  hub_request-change :
      (c : Change) (method uid : Text) (x : S)
      → method ≡ method_of c
      → hub_request h method uid x ≡ (result_text (answer_of c), hub_change c uid x)
  hub_request-change enrolling method uid x e =
      ap (λ z. hub_request h z uid x) e ∙ hub_request_enroll h uid x
  hub_request-change delisting method uid x e =
      ap (λ z. hub_request h z uid x) e ∙ hub_request_delist h uid x

  -- That a document asks for the change `c`, and that the handlers have made it.
  abbrev pub IsMade :
      (g : Glib) → g.Document → (device_type method : Text) → Change → S → S → Type 0
  IsMade g doc device_type method c x y =
      (method ≡ method_of c)
      × (uid : Text) × ((device_type ≡ codes "edge")
            × (string_member g doc (codes "edgeId") ≡ some uid)
            × (y ≡ edge_change c uid x)
          ⊎ (device_type ≡ codes "hub")
            × (string_member g doc (codes "hubId") ≡ some uid)
            × (y ≡ hub_change c uid x))

module _ (g : Glib) (plain : ReadsPlain g) where
  -- No plain result is accepted but the one that is asked for.
  plain_accepted :
      (response t shouldbe : Text)
      → response ≡ result_text t
      → IsPlain t
      → validate_response g (some response) shouldbe ≡ ok
      → t ≡ shouldbe
  plain_accepted response t shouldbe said p e =
      accepted_same g t shouldbe (plain.reads t p)
        (ap (λ z. validate_response g (some z) shouldbe) (sym said) ∙ e)

  asked :
      (c : Change) (response method : Text)
      → response ≡ result_text (result_of method)
      → IsPlain method
      → validate_response g (some response) (answer_of c) ≡ ok
      → method ≡ method_of c
  asked c response method said p e =
      result_of-answer_of c method (
        plain_accepted response (result_of method) (answer_of c) said (result_of-IsPlain method p)
          e)
