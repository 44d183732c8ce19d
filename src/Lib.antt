-- ===== src/Lib.antt =====
-- Chamge: a library with which edges and hubs enrol at an arbiter over AMQP, and the agent that
-- runs an arbiter.
--
-- An edge, a hub and an arbiter are nodes. A node (chamge/node.c) has a state, NULL, ENROLLED or
-- ACTIVATED, that its public calls change when the method of its class returns
-- CHAMGE_RETURN_OK. The methods of the three classes (chamge/edge.c, chamge/hub.c,
-- chamge/arbiter.c) pass each call to a backend, which is a mock that accepts everything or one
-- that speaks AMQP by rabbitmq-c. The AMQP backends of edge and hub send a JSON request to the
-- queue of the arbiter and wait for the answer; that of the arbiter answers requests, and tells
-- the agent (agent/arbiter-agent.c), which keeps the ids that are enrolled.
--
-- Where the parts are:
-- - Types.antt: chamge/types.h and the states of chamge/node.h.
-- - Node.antt: chamge/node.c. `Node` is the private data of an instance, `Class` the table of
--   virtual methods, and `enroll`, `delist`, `activate`, `deactivate`, `user_command`,
--   `enroll_by_uid_group_func` are the functions of those names. Node/Calls.antt makes of the calls
--   and the timers the steps of a node.
-- - Glib.antt and Amqp.antt: what the code takes from GLib, JSON-GLib and rabbitmq-c, as
--   parameters; Amqp.antt also has the monad of a call that can fail with an error, end the
--   process, or return, and the log of what was sent.
-- - Rpc.antt: the remote calls of chamge/amqp-edge-backend.c, which chamge/amqp-hub-backend.c
--   repeats.
-- - Source.antt: the event source of chamge/amqp-source.c.
-- - Backend.antt: what the three AMQP backends share; Backend/Edge.antt, Backend/Hub.antt,
--   Backend/Arbiter.antt and Backend/Command.antt: the methods of each.
-- - Edge.antt, Hub.antt, Arbiter.antt: the nodes over their backends (chamge/edge.c and
--   chamge/edge-backend.c, and their siblings), with the mock backends.
--   Backend/UserCommand.antt and Backend/Hub/Closure.antt are the closures by which a backend hands
--   a user command to its edge or hub. The modules called Life make and dispose of the nodes;
--   Edge/References.antt counts the references between an edge and its backend.
-- - Agent.antt: agent/arbiter-agent.c, with Agent/Process.antt (options to running arbiter) and
--   Agent/Bus.antt (the calls over D-Bus). EdgeAgent.antt: agent/edge-agent.c. Options.antt and
--   Registration.antt: what the two agents have as the same text.
-- - Application.antt: hwangsaeul/application.c. Uuid.antt: glib-compat/glib-compat.c.
-- - ArbiterDummy.antt: examples/arbiter-dummy.c, an arbiter that is driven by keys. DeviceDummy.antt:
--   examples/edge-dummy.c and examples/hub-dummy.c.
-- - Samples.antt and the modules called Tests: concrete parameters, and runs on them.
--
-- A C string is the list of its bytes. A function that can end the process, read NULL, lock a
-- mutex that it holds, or not return has its result in `Run`. The wait for an answer in Rpc.antt is
-- on fuel, and 12 is what `rpc_request` gives it, since the code itself stops after 11 messages;
-- the wait for the answer to a user command has no bound in the code, so that its fuel is a
-- parameter. Numbers of type `guint` are taken modulo 2 ^ 32 where the code computes them.
--
-- Not modelled: logging, the memory of the program but for the references of edge and backend,
-- GObject registration, the handlers of Unix signals, the terminal of the example, the bus and the
-- main loop, of which only the callbacks that ran are given, the look-up of the settings schema,
-- and the callbacks of user commands in the examples of edge and hub.
pub mod Prelude
pub mod Options
pub mod Application
pub mod ArbiterDummy
pub mod DeviceDummy
pub mod Registration
pub mod EdgeAgent
pub mod Types
pub mod Glib
pub mod Amqp
pub mod Rpc
pub mod Source
pub mod Backend
pub mod Agent
pub mod Edge
pub mod Hub
pub mod Arbiter
pub mod Node
pub mod Samples
pub mod Uuid
