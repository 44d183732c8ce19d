-- ===== src/Edge/References/Tests.antt =====
-- An edge of AMQP that enrols, delists, and is released by its user (chamge/edge.c).
use chamge.Prelude.{ℕ, ◌≡◌, ◌↔◌, true, false}
use chamge.Edge.References.{
  made_edge, unref_edge, enroll_references, delist_references, makes, unrefs, enrolls, delists,
  Held-disposed,
}

Held-disposed_example :
    ((unref_edge (delist_references true (enroll_references true made_edge))).disposed ≡ true) ↔ (
      (◌≡◌ {A = ℕ} 0 0)
      × (◌≡◌ {A = ℕ} 2 0)
      × ((unref_edge (delist_references true (enroll_references true made_edge))).edge_backend
          ≡ false))
unfolding enroll_references made_edge
Held-disposed_example = Held-disposed {amqp = true} (unrefs (delists (enrolls makes)))
