-- ===== src/Backend/Arbiter/Answers/Accepted.antt =====
-- When a device accepts the answer of the arbiter (`_process_json_message` of
-- chamge/amqp-arbiter-backend.c, `_validate_response` of chamge/amqp-edge-backend.c).
use chamge.Prelude.{
  ℕ, ◌≡◌, ◌≢◌, ◌⊎◌, ◌↔◌, inl, inr, sym, ap, ◌∙◌, some, List, ◌++◌, Text, codes, text_eq,
  text_eq_iff, arith, Bool-cases, Option-cases,
}
use chamge.Types.{ok}
use chamge.Glib.{Glib}
use chamge.Rpc.{string_member, validate_response}
use chamge.Backend.Arbiter.{
  Handlers, edge_request, hub_request, device_request, result_text, process_json_message,
}
use chamge.Backend.Arbiter.Requests.{edge_asks, hub_asks}
use chamge.Backend.Arbiter.Answers.{
  IsPlain, IsPlain-append, ReadsPlain, accepted_answer, plain_accepted, asked, Change, enrolling,
  delisting, answer_of, answer_of-IsPlain, edge_change, hub_change, edge_request-result,
  hub_request-result, edge_request-change, hub_request-change, IsMade,
}

-- The results for a request that names no device.
abbrev IsRefusal : Text → Type 0
IsRefusal t = IsPlain t × ((c : Change) → t ≢ answer_of c)

no_edge_id : IsRefusal (codes "edgeId does not exist")
no_edge_id = (omega arith, λ c. elim c [ enrolling ↦ ground arith | delisting ↦ ground arith ])

no_hub_id : IsRefusal (codes "hubId does not exist")
no_hub_id = (omega arith, λ c. elim c [ enrolling ↦ ground arith | delisting ↦ ground arith ])

unknown_type :
    (t : Text) → IsPlain t → IsRefusal (codes "unknown device type (" ++ (t ++ codes ")"))
unknown_type t p = (
  IsPlain-append (codes "unknown device type (") (t ++ codes ")") (omega arith)
      (IsPlain-append t (codes ")") p (omega arith)),
  λ c. elim c [ enrolling ↦ ground arith | delisting ↦ ground arith ],
)

module _ {S : Type 0} (h : Handlers S) (g : Glib) where
  process_json_message-read :
      (body : List ℕ) (doc : g.Document) (device_type method : Text) (x : S)
      → g.load body ≡ some doc
      → string_member g doc (codes "deviceType") ≡ some device_type
      → string_member g doc (codes "method") ≡ some method
      → process_json_message h g body x ≡ device_request h g doc device_type method x
  unfolding process_json_message
  process_json_message-read body doc device_type method x l d m = ground arith

  device_request-cases :
      (doc : g.Document) (device_type method : Text) (x : S)
      → IsPlain device_type
      → ((uid : Text) × (device_type ≡ codes "edge")
          × (string_member g doc (codes "edgeId") ≡ some uid)
          × (device_request h g doc device_type method x ≡ edge_request h method uid x))
        ⊎ (((uid : Text) × (device_type ≡ codes "hub")
              × (string_member g doc (codes "hubId") ≡ some uid)
              × (device_request h g doc device_type method x ≡ hub_request h method uid x))
            ⊎ ((t : Text) × (device_request h g doc device_type method x ≡ (result_text t, x))
                × IsRefusal t))
  unfolding device_request
  device_request-cases doc device_type method x p =
      elim (Bool-cases (text_eq device_type (codes "edge"))) [
        | inl is_edge ↦ elim (Option-cases (string_member g doc (codes "edgeId"))) [
          | inl missing ↦ inr (inr (codes "edgeId does not exist", ground arith, no_edge_id))
          | inr (uid, given) ↦
              inl (uid, ground (arith, text_eq_iff device_type (codes "edge")), given, ground arith)
        ]
        | inr no_edge ↦ elim (Bool-cases (text_eq device_type (codes "hub"))) [
          | inl is_hub ↦ elim (Option-cases (string_member g doc (codes "hubId"))) [
            | inl missing ↦ inr (inr (codes "hubId does not exist", ground arith, no_hub_id))
            | inr (uid, given) ↦ inr (
                inl
                  (uid, ground (arith, text_eq_iff device_type (codes "hub")), given, ground arith))
          ]
          | inr no_hub ↦ inr (
              inr (
                codes "unknown device type (" ++ (device_type ++ codes ")"),
                ground arith,
                unknown_type device_type p,
              ))
        ]
      ]

module _ {S : Type 0} (h : Handlers S) (g : Glib) (plain : ReadsPlain g) where
  answered :
      (c : Change) (p : Text × S) (y : S)
      → p ≡ (result_text (answer_of c), y)
      → validate_response g (some p.0) (answer_of c) ≡ ok
  answered c p y e =
      ap (λ (q : Text × S). validate_response g (some q.0) (answer_of c)) e
      ∙ accepted_answer g (answer_of c) (plain.reads (answer_of c) (answer_of-IsPlain c))

  request_accepted :
      (c : Change) (doc : g.Document) (device_type method : Text) (x : S) (p : Text × S)
      → device_request h g doc device_type method x ≡ p
      → IsPlain device_type
      → IsPlain method
      → validate_response g (some p.0) (answer_of c) ≡ ok
      → IsMade h g doc device_type method c x p.1
  request_accepted c doc device_type method x p here dp mp e =
      elim (device_request-cases h g doc device_type method x dp) [
        | inl (uid, type, given, same) ↦
            let said = ap (λ (q : Text × S). q.0) (sym here ∙ same) in
            let m = asked g plain c p.0 method (said ∙ edge_request-result h method uid x) mp e in
            (
              m,
              uid,
              inl (
                type,
                given,
                ap (λ (q : Text × S). q.1)
                    (sym here ∙ same ∙ edge_request-change h c method uid x m),
              ),
            )
        | inr (inl (uid, type, given, same)) ↦
            let said = ap (λ (q : Text × S). q.0) (sym here ∙ same) in
            let m = asked g plain c p.0 method (said ∙ hub_request-result h method uid x) mp e in
            (
              m,
              uid,
              inr (
                type,
                given,
                ap (λ (q : Text × S). q.1)
                    (sym here ∙ same ∙ hub_request-change h c method uid x m),
              ),
            )
        | inr (inr (t, same, (tp, differs))) ↦ absurd (
            differs c (
              plain_accepted g plain p.0 t (answer_of c)
                (ap (λ (q : Text × S). q.0) (sym here ∙ same)) tp e))
      ]

  -- Let the parser read the results that the arbiter prints, where they are plain text, and a
  -- message be a document with a type of device and a method, both plain. A device that is waiting
  -- for "enrolled" or "delisted" accepts the arbiter's answer exactly if the message asked for that
  -- change of an edge or a hub that it names, and the arbiter has told its handlers of that change
  -- and of nothing else.
  pub accepted-IsMade :
      (c : Change) (body : List ℕ) (doc : g.Document) (device_type method : Text) (x : S)
      → g.load body ≡ some doc
      → string_member g doc (codes "deviceType") ≡ some device_type
      → string_member g doc (codes "method") ≡ some method
      → IsPlain device_type
      → IsPlain method
      → (validate_response g (some (process_json_message h g body x).0) (answer_of c) ≡ ok)
        ↔ IsMade h g doc device_type method c x (process_json_message h g body x).1
  accepted-IsMade c body doc device_type method x l d m dp mp = (
    request_accepted c doc device_type method x (process_json_message h g body x)
        (sym (process_json_message-read h g body doc device_type method x l d m)) dp mp,
    λ (asks, uid, device). elim device [
      | inl (type, given, made) ↦
          answered c (process_json_message h g body x) (edge_change h c uid x) (
            edge_asks h g body doc method uid x l (d ∙ ap some type) m given
            ∙ edge_request-change h c method uid x asks)
      | inr (type, given, made) ↦
          answered c (process_json_message h g body x) (hub_change h c uid x) (
            hub_asks h g body doc method uid x l (d ∙ ap some type) m given
            ∙ hub_request-change h c method uid x asks)
    ],
  )
