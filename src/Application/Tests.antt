-- ===== src/Application/Tests.antt =====
-- A service that loses its name (hwangsaeul/application.c).
use chamge.Prelude.{ℕ, ◌≡◌, ◌↔◌, true, false, ◌&&◌, [], ◌∷◌, ◌==◌}
use chamge.Application.{
  name_acquired, name_lost, any_fails, application_run, application_run-status,
}

application_run-status_example :
    (application_run 0 1 (name_acquired false ∷ name_lost true ∷ []) ≡ 0) ↔ (
      (◌≡◌ {A = ℕ} 0 0)
      × ((1 == 1 && any_fails (name_acquired false ∷ name_lost true ∷ [])) ≡ false))
application_run-status_example =
    application_run-status 0 1 (name_acquired false ∷ name_lost true ∷ [])
