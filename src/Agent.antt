-- ===== src/Agent.antt =====
-- agent/arbiter-agent.c: the process that runs an arbiter. It keeps the ids of the edges and hubs
-- that are enrolled, and hands user commands that come over D-Bus to the arbiter.
pub mod Tests
pub mod Lists
pub mod Requests
pub mod Commands
pub mod Process
pub mod Replay
pub mod Bus
pub mod Service
use chamge.Prelude.{
  Bool, true, false, not, ◌||◌, Option, none, some, List, [], ◌∷◌, ◌++◌, Text, codes, text_eq,
  if◌then◌else◌, Run, ret, stop, ◌>>=◌, aborted,
}
use chamge.Types.{Return, ok, fail, NodeState, null, enrolled, Error}
use chamge.Glib.{Glib}
use chamge.Rpc.{same_string, string_member}
use chamge.Backend.Arbiter.{Handlers, result_text}
use chamge.Node
use chamge.Node.{Node, Class, Handler, Reply, get_state}

pub record Agent : Type 0 where
  pub edges : List Text
  pub hubs : List Text

-- _is_enrolled, and _find_list as a test; the id may be NULL.
pub is_enrolled : List Text → Option Text → Bool
unfolding same_string
is_enrolled [] id = false
is_enrolled (x ∷ list) id = same_string id x || is_enrolled list id

-- g_list_append of the id, if it is not there.
pub add_id : Text → List Text → List Text
add_id id list = if is_enrolled list (some id) then list else list ++ id ∷ []

-- g_list_delete_link of the first link with the id.
pub delete_id : Text → List Text → List Text
delete_id id [] = []
delete_id id (x ∷ list) = if text_eq id x then list else x ∷ delete_id id list

unfoldable pub edge_enrolled_cb : Text → Agent → Agent
unfolding add_id
edge_enrolled_cb id a = record a { edges = add_id id a.edges }

pub edge_delisted_cb : Text → Agent → Agent
unfolding delete_id
edge_delisted_cb id a = record a { edges = delete_id id a.edges }

pub hub_enrolled_cb : Text → Agent → Agent
unfolding add_id
hub_enrolled_cb id a = record a { hubs = add_id id a.hubs }

unfoldable pub hub_delisted_cb : Text → Agent → Agent
unfolding delete_id
hub_delisted_cb id a = record a { hubs = delete_id id a.hubs }

-- The signals that chamge_arbiter_agent_startup connects.
abbrev pub agent_handlers : Handlers Agent
agent_handlers = record {
  edge_enrolled = edge_enrolled_cb;
  edge_delisted = edge_delisted_cb;
  hub_enrolled = hub_enrolled_cb;
  hub_delisted = hub_delisted_cb;
}

-- `%s` of a NULL pointer.
or_null : Option Text → Text
or_null none = codes "(null)"
or_null (some t) = t

unfoldable pub for_edge : Option Text → Bool
unfolding same_string
for_edge method =
    same_string method (codes "streamingStart")
    || (same_string method (codes "streamingStop") || same_string method (codes "getUrl"))

-- The check of the receiver against the enrolled ids: the text of a refusal.
refusal : List Text → Text → Option (Option Text) → Option Text
unfolding or_null
refusal list text none = none
refusal list text (some id) =
    if is_enrolled list id then none else some (result_text (text ++ or_null id))

pub refused : (g : Glib) → Agent → g.Document → Option Text
unfolding refusal
refused g a doc = elim (g.member doc (codes "method")) [
  | none ↦ none
  | some method ↦
      if for_edge method
      then refusal a.edges (codes "no edge is enrolled with edge id ") (g.member doc (codes "to"))
      else refusal a.hubs (codes "no hub is enrolled with hub id ") (g.member doc (codes "to"))
]

-- The answer to the D-Bus call: the status and the response, which may be NULL.
pub record DbusReply : Type 0 where
  pub status : Return
  pub response : Option Text

-- A failure of the arbiter is answered by its error, if the arbiter gave no response.
pub dbus_reply : Reply → DbusReply
dbus_reply p = elim p.result [
  | ok ↦ record { status = ok; response = p.out }
  | other ↦ elim p.out [
    | some text ↦ record { status = other; response = some text }
    | none ↦ elim p.error [
      | some e ↦ record { status = other; response = some (result_text e.message) }
      | none ↦ record { status = other; response = some (result_text (codes "nok")) }
    ]
  ]
]

module _ {S : Type 0} (g : Glib) (user_command : Text → S → Run (Reply × S)) where
  -- chamge_arbiter_agent_handle_user_command; `user_command` is that of the arbiter node.
  pub handle_user_command : Agent → Text → S → Run (DbusReply × S)
  handle_user_command a user_cmd s = elim (g.load user_cmd) [
    | none ↦
        ret (
          record { status = fail; response = some (result_text (codes "failed to parse body")) },
          s,
        )
    | some doc ↦ elim (refused g a doc) [
      | some text ↦ ret (record { status = fail; response = some text }, s)
      | none ↦ user_command user_cmd s >>= λ (p, s'). ret (dbus_reply p, s')
    ]
  ]

-- `if (ret != CHAMGE_RETURN_OK) g_error (…)`.
must_be_ok : {A : Type 0} → Return × A → Run (Return × A)
must_be_ok (ok, a) = ret (ok, a)
must_be_ok (r, a) = stop aborted

module _ {S : Type 0} (g : Glib) (klass : Class S) (h : Handler S) where
  -- chamge_arbiter_agent_enroll and _activate: a call in the wrong state is refused, so that it
  -- does not end the process.
  pub enroll : Node S → Run (Return × Node S)
  unfolding must_be_ok
  enroll n = get_state n >>= λ (state, m). elim state [
    | null ↦ Node.enroll g klass h false 0 m >>= must_be_ok
    | _ ↦ ret (fail, m)
  ]

  pub activate : Node S → Run (Return × Node S)
  unfolding must_be_ok
  activate n = get_state n >>= λ (state, m). elim state [
    | enrolled ↦ Node.activate g klass h m >>= must_be_ok
    | _ ↦ ret (fail, m)
  ]

  pub deactivate : Node S → Run (Return × Node S)
  deactivate n = Node.deactivate g klass h n

  pub delist : Node S → Run (Return × Node S)
  delist n = Node.delist g klass h n

  -- chamge_arbiter_agent_startup, on the new arbiter.
  pub startup : Node S → Run (Node S)
  unfolding enroll activate must_be_ok
  startup n = enroll n >>= must_be_ok >>= λ p. activate p.1 >>= must_be_ok >>= λ q. ret q.1
