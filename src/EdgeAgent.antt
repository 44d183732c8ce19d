-- ===== src/EdgeAgent.antt =====
-- agent/edge-agent.c: the agent of an edge. It keeps the kind of the backend, but makes no edge:
-- its handlers complete the calls that come over D-Bus, and do nothing else.
use chamge.Prelude.{Bool, true, Option, none, Text}
use chamge.Types.{BackendKind}
use chamge.Options.{initial_backend}
use chamge.Registration.{Registration, registration_init}

-- struct _ChamgeEdgeAgent.
pub record EdgeAgent : Type 0 where
  pub edge_manager : Registration
  pub backend : BackendKind

-- The signals of the skeleton that chamge_edge_agent_init connects.
pub data EdgeManagerCall : Type 0 where
  handle_enroll handle_delist handle_activate handle_deactivate : EdgeManagerCall
  handle_request_srtconnection_uri : EdgeManagerCall

-- How a call is completed: without a value, or with a string, which may be NULL.
pub data Completion : Type 0 where
  completed : Completion
  completed_with : Option Text → Completion

pub edge_agent_init : EdgeAgent
edge_agent_init = record { edge_manager = registration_init; backend = initial_backend }

-- The Boolean is TRUE: the call was handled.
pub edge_agent_handle : EdgeManagerCall → EdgeAgent → Completion × Bool × EdgeAgent
edge_agent_handle handle_request_srtconnection_uri self = (completed_with none, true, self)
edge_agent_handle c self = (completed, true, self)
