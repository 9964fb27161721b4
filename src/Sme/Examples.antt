-- ===== src/Sme/Examples.antt =====
-- An expert is created.
use mirai_app.Prelude.{ℕ, ◌≡◌, refl, List, [], ◌∷◌}
use mirai_app.Prelude.Js.{done, has_text}
use mirai_app.Shared.Machine.{run}
use mirai_app.Sme.{step}
use mirai_app.Sme.Data.{
  viewing, SmeEvent, start_create, set_name, submit_create, sme_settled, initial,
}

abbrev session : List (ℕ × SmeEvent)
session =
    (1, start_create)
    ∷ (2, set_name "Ada")
    ∷ (3, submit_create)
    ∷ (4, sme_settled (done (record { id = "s1"; name = "Ada" })))
    ∷ []

creates : (run step initial session).0.state ≡ viewing
unfolding run step has_text
creates = refl
