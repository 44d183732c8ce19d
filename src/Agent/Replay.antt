-- ===== src/Agent/Replay.antt =====
-- The lists of the agent after any sequence of enrolments and delistings (agent/arbiter-agent.c),
-- against a description that knows no lists.
pub mod Order
pub mod Registry
pub mod Tests
use chamge.Prelude.{
  ◌≡◌, refl, sym, ◌∙◌, ap, Bool, true, false, not, ◌||◌, ◌&&◌, Option, none, some, List, [], ◌∷◌,
  Text, text_eq, text_eq_iff, if◌then◌else◌, Run, ret, stop, ◌>>=◌, arith, Bool-cases, ◌⊎◌, inl,
  inr, codes,
}
use chamge.Types.{fail}
use chamge.Glib.{Glib}
use chamge.Node.{Reply}
use chamge.Agent.{
  Agent, is_enrolled, add_id, delete_id, edge_enrolled_cb, edge_delisted_cb, hub_enrolled_cb,
  hub_delisted_cb, for_edge, refused, dbus_reply, handle_user_command,
}
use chamge.Agent.Lists.{
  Distinct, is_enrolled-add_id, is_enrolled-delete_id, add_id-Distinct, delete_id-Distinct,
}
use chamge.Agent.Commands.{handle_user_command_routes}
use chamge.Agent.Requests.{IsSound}

-- The signals of the arbiter that reach the agent.
pub data ArbiterSignal : Type 0 where
  edge_enrolled edge_delisted hub_enrolled hub_delisted : Text → ArbiterSignal

pub callback : ArbiterSignal → Agent → Agent
callback (edge_enrolled id) a = edge_enrolled_cb id a
callback (edge_delisted id) a = edge_delisted_cb id a
callback (hub_enrolled id) a = hub_enrolled_cb id a
callback (hub_delisted id) a = hub_delisted_cb id a

-- The first signal of the list comes first.
abbrev pub replay : List ArbiterSignal → Agent → Agent
replay [] a = a
replay (e ∷ es) a = replay es (callback e a)

pub data Kind : Type 0 where
  edge hub : Kind

-- What a signal says of the edge or the hub with the given id.
abbrev word : Kind → Text → ArbiterSignal → Option Bool
word edge id (edge_enrolled x) = if text_eq x id then some true else none
word edge id (edge_delisted x) = if text_eq x id then some false else none
word hub id (hub_enrolled x) = if text_eq x id then some true else none
word hub id (hub_delisted x) = if text_eq x id then some false else none
word kind id e = none

abbrev or_else : Bool → Option Bool → Bool
or_else b none = b
or_else b (some c) = c

-- The last word on an id, where `b` holds before.
abbrev pub last_word : Kind → Text → List ArbiterSignal → Bool → Bool
last_word kind id [] b = b
last_word kind id (e ∷ es) b = last_word kind id es (or_else b (word kind id e))

abbrev pub list_of : Kind → Agent → List Text
list_of edge a = a.edges
list_of hub a = a.hubs

callback-IsSound : (e : ArbiterSignal) (a : Agent) → IsSound a → IsSound (callback e a)
unfolding callback edge_enrolled_cb edge_delisted_cb hub_enrolled_cb hub_delisted_cb
callback-IsSound (edge_enrolled id) a (p, q) = (add_id-Distinct id a.edges p, q)
callback-IsSound (edge_delisted id) a (p, q) = (delete_id-Distinct id a.edges p, q)
callback-IsSound (hub_enrolled id) a (p, q) = (p, add_id-Distinct id a.hubs q)
callback-IsSound (hub_delisted id) a (p, q) = (p, delete_id-Distinct id a.hubs q)

-- One signal.
callback-word :
    (kind : Kind) (id : Text) (e : ArbiterSignal) (a : Agent)
    → IsSound a
    → is_enrolled (list_of kind (callback e a)) (some id)
      ≡ or_else (is_enrolled (list_of kind a) (some id)) (word kind id e)
unfolding callback edge_enrolled_cb edge_delisted_cb hub_enrolled_cb hub_delisted_cb
callback-word edge id (edge_enrolled x) a (p, q) =
    ground (arith, is_enrolled-add_id x id a.edges, text_eq_iff x id, text_eq_iff id x)
callback-word edge id (edge_delisted x) a (p, q) =
    ground (arith, is_enrolled-delete_id x id a.edges p)
callback-word edge id (hub_enrolled x) a (p, q) = refl
callback-word edge id (hub_delisted x) a (p, q) = refl
callback-word hub id (edge_enrolled x) a (p, q) = refl
callback-word hub id (edge_delisted x) a (p, q) = refl
callback-word hub id (hub_enrolled x) a (p, q) =
    ground (arith, is_enrolled-add_id x id a.hubs, text_eq_iff x id, text_eq_iff id x)
callback-word hub id (hub_delisted x) a (p, q) = ground (arith, is_enrolled-delete_id x id a.hubs q)

-- After any signals of the arbiter, if no id was twice in a list before, then none is, and an edge
-- or a hub is enrolled exactly if the last signal that names it is its enrolment, or if there is
-- no such signal and it was enrolled before.
pub replay-last_word :
    (kind : Kind) (id : Text) (es : List ArbiterSignal) (a : Agent)
    → IsSound a
    → IsSound (replay es a)
      × (is_enrolled (list_of kind (replay es a)) (some id)
          ≡ last_word kind id es (is_enrolled (list_of kind a) (some id)))
replay-last_word kind id [] a sound = (sound, refl)
replay-last_word kind id (e ∷ es) a sound =
    let (still, same) = replay-last_word kind id es (callback e a) (callback-IsSound e a sound) in
    (still, same ∙ ap (last_word kind id es) (callback-word kind id e a sound))

-- The agent when it starts.
abbrev pub nobody : Agent
nobody = record { edges = []; hubs = [] }

abbrev pub receiver : Option Text → Kind
receiver method = if for_edge method then edge else hub

list_of-receiver :
    (method : Option Text) (a : Agent)
    → (if for_edge method then a.edges else a.hubs) ≡ list_of (receiver method) a
list_of-receiver method a = elim (Bool-cases (for_edge method)) [
  | inl is_for_edge ↦ rw is_for_edge
  | inr is_for_hub ↦ rw is_for_hub
]

nobody_enrolled : (kind : Kind) (id : Text) → is_enrolled (list_of kind nobody) (some id) ≡ false
unfolding is_enrolled
nobody_enrolled edge id = refl
nobody_enrolled hub id = refl

module _ {S : Type 0} (g : Glib) (user_command : Text → S → Run (Reply × S)) where
  -- Let the agent have started with no ids, and any signals have come. A command that names its
  -- receiver is handed to the arbiter, whose reply is given back, if the last signal that names the
  -- receiver, as an edge or as a hub by the method of the command, is its enrolment; and if that is
  -- its delisting, or there is none, it is refused with a text, and the arbiter is not called.
  pub handle_user_command-replay :
      (es : List ArbiterSignal) (cmd id : Text) (doc : g.Document) (method : Option Text) (s : S)
      → g.load cmd ≡ some doc
      → g.member doc (codes "method") ≡ some method
      → g.member doc (codes "to") ≡ some (some id)
      → (last_word (receiver method) id es false ≡ true)
          × (handle_user_command g user_command (replay es nobody) cmd s
              ≡ (user_command cmd s >>= λ (p, s'). ret (dbus_reply p, s')))
        ⊎ (last_word (receiver method) id es false ≡ false)
          × (text : Text) × (handle_user_command g user_command (replay es nobody) cmd s
              ≡ ret (record { status = fail; response = some text }, s))
  handle_user_command-replay es cmd id doc method s l m t =
      let a = replay es nobody in
      let (_, known) = replay-last_word (receiver method) id es nobody (tt, tt) in
      let same = sym (
        ap (λ z. is_enrolled z (some id)) (list_of-receiver method a)
        ∙ known
        ∙ ap (last_word (receiver method) id es) (nobody_enrolled (receiver method) id)) in
      elim (handle_user_command_routes g user_command a cmd doc method (some id) s l m t) [
        | inl (found, routed) ↦ inl (same ∙ found, routed)
        | inr (missing, text, refused) ↦ inr (same ∙ missing, text, refused)
      ]
