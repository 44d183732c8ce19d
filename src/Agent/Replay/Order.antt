-- ===== src/Agent/Replay/Order.antt =====
-- Signals to the agent in another order, which keeps that of the signals of each device
-- (agent/arbiter-agent.c).
use chamge.Prelude.{
  ◌≡◌, ◌⊎◌, ◌++◌, refl, sym, ap, ◌∙◌, Bool, true, false, not, ◌&&◌, Option, none, some, List, [],
  ◌∷◌, Text, text_eq, text_eq_iff, arith, Option-cases, inl, inr,
}
use chamge.Agent.Replay.{
  ArbiterSignal, edge_enrolled, edge_delisted, hub_enrolled, hub_delisted, Kind, edge, hub, word,
  or_else, last_word,
}

abbrev pub about : ArbiterSignal → Kind
about (edge_enrolled id) = edge
about (edge_delisted id) = edge
about (hub_enrolled id) = hub
about (hub_delisted id) = hub

abbrev pub id_of : ArbiterSignal → Text
id_of (edge_enrolled id) = id
id_of (edge_delisted id) = id
id_of (hub_enrolled id) = id
id_of (hub_delisted id) = id

abbrev pub same_kind : Kind → Kind → Bool
same_kind edge edge = true
same_kind hub hub = true
same_kind edge hub = false
same_kind hub edge = false

-- Signals of different devices.
abbrev pub independent : ArbiterSignal → ArbiterSignal → Bool
independent e f = not (same_kind (about e) (about f) && text_eq (id_of e) (id_of f))

-- The same signals in an order that keeps that of the signals of each device: some neighbours that
-- are independent have changed places.
pub data Reordered (es : List ArbiterSignal) : List ArbiterSignal → Type 0 where
  same : Reordered es es
  swapped :
      {fs gs : List ArbiterSignal} (before : List ArbiterSignal) (e f : ArbiterSignal)
      (after : List ArbiterSignal)
      → Reordered es fs
      → independent e f ≡ true
      → fs ≡ before ++ (e ∷ f ∷ after)
      → gs ≡ before ++ (f ∷ e ∷ after)
      → Reordered es gs

last_word-append :
    (kind : Kind) (id : Text) (es fs : List ArbiterSignal) (b : Bool)
    → last_word kind id (es ++ fs) b ≡ last_word kind id fs (last_word kind id es b)
last_word-append kind id [] fs b = refl
last_word-append kind id (e ∷ es) fs b = last_word-append kind id es fs (or_else b (word kind id e))

word-about :
    (kind : Kind) (id : Text) (e : ArbiterSignal) (b : Bool)
    → word kind id e ≡ some b
    → (same_kind (about e) kind ≡ true) × (text_eq (id_of e) id ≡ true)
word-about edge id (edge_enrolled x) b h = ground arith
word-about edge id (edge_delisted x) b h = ground arith
word-about edge id (hub_enrolled x) b h = absurd (ground arith)
word-about edge id (hub_delisted x) b h = absurd (ground arith)
word-about hub id (edge_enrolled x) b h = absurd (ground arith)
word-about hub id (edge_delisted x) b h = absurd (ground arith)
word-about hub id (hub_enrolled x) b h = ground arith
word-about hub id (hub_delisted x) b h = ground arith

same_kind_join : (k l m : Kind) → same_kind k m ≡ true → same_kind l m ≡ true → same_kind k l ≡ true
same_kind_join edge edge m p q = refl
same_kind_join edge hub edge p q = q
same_kind_join edge hub hub p q = p
same_kind_join hub edge edge p q = p
same_kind_join hub edge hub p q = q
same_kind_join hub hub m p q = refl

-- At most one of two independent signals says something of a device.
one_word :
    (kind : Kind) (id : Text) (e f : ArbiterSignal)
    → independent e f ≡ true
    → (word kind id e ≡ none) ⊎ (word kind id f ≡ none)
one_word kind id e f h = elim (Option-cases (word kind id e)) [
  | inl silent ↦ inl silent
  | inr (b, says) ↦ elim (Option-cases (word kind id f)) [
    | inl silent ↦ inr silent
    | inr (c, says_too) ↦
        let (k, i) = word-about kind id e b says in
        let (l, j) = word-about kind id f c says_too in
        let joined = same_kind_join (about e) (about f) kind k l in
        absurd (
          ground (
            arith,
            text_eq_iff (id_of e) id,
            text_eq_iff (id_of f) id,
            text_eq_iff (id_of e) (id_of f),
          ))
  ]
]

or_else_comm :
    (b : Bool) (v w : Option Bool)
    → (v ≡ none) ⊎ (w ≡ none)
    → or_else (or_else b v) w ≡ or_else (or_else b w) v
or_else_comm b none w h = refl
or_else_comm b (some v) none h = refl
or_else_comm b (some v) (some w) h = ground (arith, h)

last_word-swap :
    (kind : Kind) (id : Text) (before after : List ArbiterSignal) (e f : ArbiterSignal) (b : Bool)
    → independent e f ≡ true
    → last_word kind id (before ++ (e ∷ f ∷ after)) b
      ≡ last_word kind id (before ++ (f ∷ e ∷ after)) b
last_word-swap kind id before after e f b h =
    let c = last_word kind id before b in
    last_word-append kind id before (e ∷ f ∷ after) b
    ∙ ap (last_word kind id after)
        (or_else_comm c (word kind id e) (word kind id f) (one_word kind id e f h))
    ∙ sym (last_word-append kind id before (f ∷ e ∷ after) b)

pub last_word-Reordered :
    (kind : Kind) (id : Text) (b : Bool) {es fs : List ArbiterSignal}
    → Reordered es fs
    → last_word kind id es b ≡ last_word kind id fs b
last_word-Reordered kind id b same = refl
last_word-Reordered kind id b (swapped before e f after r h was now) =
    last_word-Reordered kind id b r
    ∙ ap (λ l. last_word kind id l b) was
    ∙ last_word-swap kind id before after e f b h
    ∙ sym (ap (λ l. last_word kind id l b) now)
