-- ===== src/Arbiter/Serving/Kept.antt =====
-- The methods of an arbiter keep what it is to serve (chamge/arbiter.c).
use chamge.Glib.{Glib}
use chamge.Backend.Arbiter
use chamge.Node.{Node}
