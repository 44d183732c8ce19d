-- ===== src/Backend/Arbiter/Requests.antt =====
-- What a request of an edge or a hub does to the data of the handlers, and how it is answered
-- (`_process_json_message` and `_process_amqp_message` of chamge/amqp-arbiter-backend.c).
use chamge.Prelude.{
  ℕ, ◌≡◌, refl, Bool, some, List, ◌∷◌, Text, codes, ret, inl, inr, arith, text_eq, text_eq_iff,
  Bool-cases, Run-cases,
}
use chamge.Glib.{Glib}
use chamge.Amqp.{Rabbit, Net, receives}
use chamge.Rpc.{is_timeout, string_member}
use chamge.Backend.{Object, handle_message}
use chamge.Backend.Messages.{handle_message_sends}
use chamge.Backend.Arbiter.{
  Handlers, edge_request, hub_request, device_request, result_text, process_json_message,
  answer_json, process_amqp_message,
}

-- A property of the data that all handlers keep.
pub record Keeps {S : Type 0} (h : Handlers S) (P : S → Type 0) : Type 0 where
  pub edge_enrolling : (uid : Text) (x : S) → P x → P (h.edge_enrolled uid x)
  pub edge_delisting : (uid : Text) (x : S) → P x → P (h.edge_delisted uid x)
  pub hub_enrolling : (uid : Text) (x : S) → P x → P (h.hub_enrolled uid x)
  pub hub_delisting : (uid : Text) (x : S) → P x → P (h.hub_delisted uid x)

module _ {S : Type 0} (h : Handlers S) (P : S → Type 0) (k : Keeps h P) where
  edge_request_keeps : (method uid : Text) (x : S) → P x → P (edge_request h method uid x).1
  unfolding edge_request
  edge_request_keeps method uid x p =
      ground (arith, k.edge_enrolling uid x p, k.edge_delisting uid x p)

  hub_request_keeps : (method uid : Text) (x : S) → P x → P (hub_request h method uid x).1
  unfolding hub_request
  hub_request_keeps method uid x p =
      ground (arith, k.hub_enrolling uid x p, k.hub_delisting uid x p)

  device_request_keeps :
      (g : Glib) (doc : g.Document) (device_type method : Text) (x : S)
      → P x
      → P (device_request h g doc device_type method x).1
  unfolding device_request
  device_request_keeps g doc device_type method x p =
      grind (arith, edge_request_keeps, hub_request_keeps)

  pub process_json_message_keeps :
      (g : Glib) (body : List ℕ) (x : S) → P x → P (process_json_message h g body x).1
  unfolding process_json_message
  process_json_message_keeps g body x p = grind (arith, device_request_keeps)

  pub process_amqp_message_keeps :
      (g : Glib) (r : Rabbit) (o : Object r) (x x' : S) (s t : Net r) (kept : Bool)
      → P x
      → process_amqp_message g r h o (x, s) ≡ ret (kept, x', t)
      → P x'
  unfolding process_amqp_message answer_json
  process_amqp_message_keeps g r o x x' s t kept p e =
      let ((reply, envelope), w) = r.consume_message o.amqp_conn s.world in
      let s' : Net r = record { world = w; log = receives ∷ s.log } in
      elim (Bool-cases o.activated) [
        | inr off ↦ ground arith
        | inl on ↦ elim (Bool-cases (is_timeout reply)) [
          | inl late ↦ ground arith
          | inr on_time ↦
              elim (Run-cases
                (handle_message g r (answer_json g r h) o.amqp_conn reply envelope (x, s'))) [
                  | inr (f, stopped) ↦ absurd (ground arith)
                  | inl ((y, u), ran) ↦
                      let same : x' ≡ y = ground arith in
                      elim (handle_message_sends g r (answer_json g r h) o.amqp_conn reply envelope
                        x y s' u ran) [
                          | inl (dropped, kept_data, kept_net) ↦ ground arith
                          | inr (request, response, v, _, answered, _) ↦
                              ground (arith, process_json_message_keeps g request.body x p)
                        ]
                ]
        ]
      ]

module _ {S : Type 0} (h : Handlers S) (g : Glib) (body : List ℕ) (doc : g.Document) where
  pub edge_asks :
      (method uid : Text) (x : S)
      → g.load body ≡ some doc
      → string_member g doc (codes "deviceType") ≡ some (codes "edge")
      → string_member g doc (codes "method") ≡ some method
      → string_member g doc (codes "edgeId") ≡ some uid
      → process_json_message h g body x ≡ edge_request h method uid x
  unfolding process_json_message device_request
  edge_asks method uid x l d m i = ground (arith, text_eq_iff (codes "edge") (codes "edge"))

  pub hub_asks :
      (method uid : Text) (x : S)
      → g.load body ≡ some doc
      → string_member g doc (codes "deviceType") ≡ some (codes "hub")
      → string_member g doc (codes "method") ≡ some method
      → string_member g doc (codes "hubId") ≡ some uid
      → process_json_message h g body x ≡ hub_request h method uid x
  unfolding process_json_message device_request text_eq
  hub_asks method uid x l d m i = ground arith

module _ {S : Type 0} (h : Handlers S) (uid : Text) (x : S) where
  pub edge_request_enroll :
      edge_request h (codes "enroll") uid x
      ≡ (result_text (codes "enrolled"), h.edge_enrolled uid x)
  unfolding edge_request text_eq
  edge_request_enroll = refl

  pub edge_request_delist :
      edge_request h (codes "delist") uid x
      ≡ (result_text (codes "delisted"), h.edge_delisted uid x)
  unfolding edge_request text_eq
  edge_request_delist = refl

  pub hub_request_enroll :
      hub_request h (codes "enroll") uid x ≡ (result_text (codes "enrolled"), h.hub_enrolled uid x)
  unfolding hub_request text_eq
  hub_request_enroll = refl

  pub hub_request_delist :
      hub_request h (codes "delist") uid x ≡ (result_text (codes "delisted"), h.hub_delisted uid x)
  unfolding hub_request text_eq
  hub_request_delist = refl
