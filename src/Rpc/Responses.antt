-- ===== src/Rpc/Responses.antt =====
-- Which answers the program accepts: the test of the correlation id, and _validate_response
-- (chamge/amqp-edge-backend.c).
use chamge.Prelude.{
  ◌≡◌, ◌↔◌, refl, true, Option, none, some, [], ◌∷◌, ◌++◌, Text, text_eq_iff, strncmp_eq,
  strlen_reaches, codes, arith, Option-cases, inl, inr,
}
use chamge.Types.{ok}
use chamge.Glib.{Glib}
use chamge.Amqp.{Envelope}
use chamge.Rpc.{answers, validate_response, same_string, string_member}

strncmp_eq-prefix :
    (a b : Text)
    → strlen_reaches b ≡ true
    → (strncmp_eq a b ≡ true) ↔ ((rest : Text) × (a ≡ b ++ rest))
unfolding strncmp_eq strlen_reaches
strncmp_eq-prefix a [] h = (λ _. (a, refl), λ _. refl)
strncmp_eq-prefix [] (y ∷ b) h = (λ e. absurd (ground arith), λ (rest, e). absurd (ground arith))
strncmp_eq-prefix (x ∷ a) (y ∷ b) h =
    let ih = strncmp_eq-prefix a b (ground arith) in
    (
      λ e. let (rest, q) = ih.0 (ground arith) in (rest, ground arith),
      λ (rest, q). ground (arith, ih.1 (rest, ground arith)),
    )

-- An envelope with a correlation id that has no 0 byte answers a request exactly when its id is a
-- beginning of the id that was sent; so the empty id answers every request.
pub answers_iff :
    (cid id : Text) (envelope : Envelope)
    → envelope.properties.correlation_id ≡ some id
    → strlen_reaches id ≡ true
    → (answers cid envelope ≡ true) ↔ ((rest : Text) × (cid ≡ id ++ rest))
unfolding answers
answers_iff cid id envelope has whole =
    let prefix = strncmp_eq-prefix cid id whole in
    (λ h. prefix.0 (ground arith), λ h. ground (arith, prefix.1 h))

same_string_iff : (s : Option Text) (t : Text) → (same_string s t ≡ true) ↔ (s ≡ some t)
unfolding same_string
same_string_iff none t = (λ h. absurd (ground arith), λ h. absurd (ground arith))
same_string_iff (some s) t = ground (arith, text_eq_iff s t)

-- A response is accepted exactly when it is there, is a document, and its member "result" is the
-- expected text.
pub validate_response_iff :
    (g : Glib) (response : Option Text) (shouldbe : Text)
    → (validate_response g response shouldbe ≡ ok) ↔ (
        (body : Text) × (doc : g.Document) × (response ≡ some body)
        × (g.load body ≡ some doc)
        × (string_member g doc (codes "result") ≡ some shouldbe))
unfolding validate_response
validate_response_iff g none shouldbe = (λ h. absurd (ground arith), λ h. absurd (ground arith))
validate_response_iff g (some body) shouldbe = (forward, λ (b, doc, e, l, m). backward b doc e l m)
  where
    forward :
        validate_response g (some body) shouldbe ≡ ok
        → (b : Text) × (doc : g.Document) × (some body ≡ some b)
          × (g.load b ≡ some doc)
          × (string_member g doc (codes "result") ≡ some shouldbe)
    forward h = elim (Option-cases (g.load body)) [
      | inl e ↦ absurd (ground arith)
      | inr (doc, e) ↦
          let hit = same_string_iff (string_member g doc (codes "result")) shouldbe in
          (body, doc, refl, e, hit.0 (ground arith))
    ]

    backward :
        (b : Text) (doc : g.Document)
        → some body ≡ some b
        → g.load b ≡ some doc
        → string_member g doc (codes "result") ≡ some shouldbe
        → validate_response g (some body) shouldbe ≡ ok
    backward b doc e l m =
        ground (arith, (same_string_iff (string_member g doc (codes "result")) shouldbe).1 m)
