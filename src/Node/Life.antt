-- ===== src/Node/Life.antt =====
-- The making and disposal of nodes: the construct-only properties "uid" (chamge/node.c) and
-- "backend" (chamge/edge.c, chamge/hub.c and chamge/arbiter.c, with the same text).
use chamge.Prelude.{◌≡◌, Option, none, some, Text, Run, ret, stop, ◌>>=◌, aborted, arith}
use chamge.Types.{BackendKind, unknown, amqp}
use chamge.Node.{Node, init}

-- chamge_node_set_property at PROP_UID.
unfoldable pub set_uid : {S : Type 0} → Option Text → Node S → Run (Node S)
set_uid uid n = elim n.uid [ none ↦ ret (record n { uid = uid }) | some t ↦ stop aborted ]

-- chamge_node_dispose.
unfoldable pub node_dispose : {S : Type 0} → Node S → Node S
node_dispose n = record n { uid = none }

-- The field `backend` of the private data of a subclass, and its assignment.
module _ {S : Type 0} (kind : S → BackendKind) (assign : BackendKind → S → S) where
  -- chamge_edge_set_property and its siblings.
  unfoldable pub set_backend : BackendKind → S → Run S
  set_backend k s = elim (kind s) [ unknown ↦ ret (assign k s) | _ ↦ stop aborted ]

  -- chamge_edge_new_full and its siblings: g_assert_nonnull, and g_object_new, which sets the two
  -- properties of the new instance, whose private data is `s`.
  unfoldable pub new_full : Option Text → BackendKind → S → Run (Node S)
  unfolding init set_uid set_backend
  new_full none k s = stop aborted
  new_full (some uid) k s = set_uid (some uid) (init none s) >>= λ n.
      set_backend k n.self >>= λ s'. ret (record n { self = s' })

  -- chamge_edge_new and its siblings.
  unfoldable pub new : Option Text → S → Run (Node S)
  unfolding new_full
  new uid s = new_full uid amqp s

  -- A new instance has no kind, so that its making only fails for want of a uid.
  pub new_full-init :
      (uid : Text) (k : BackendKind) (s : S)
      → kind s ≡ unknown
      → new_full (some uid) k s ≡ ret (init (some uid) (assign k s))
  unfolding new_full set_uid set_backend init
  new_full-init uid k s fresh = ground arith
