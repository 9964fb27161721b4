-- ===== src/Shared/Examples.antt =====
-- Email addresses that the guard accepts and refuses.
use mirai_app.Prelude.{◌≡◌, ◌↔◌, refl, true, false}
use mirai_app.Prelude.Js.{units}
use mirai_app.Shared.Email.{IsEmail, is_valid_email, is_valid_email_iff}

accepts : is_valid_email "ada@mirai.sogos.io" ≡ true
unfolding is_valid_email
accepts = refl

refuses : is_valid_email "ada@localhost" ≡ false
unfolding is_valid_email
refuses = refl

is_valid_email_iff_example :
    (is_valid_email "ada@mirai.sogos.io" ≡ true) ↔ IsEmail (units "ada@mirai.sogos.io")
is_valid_email_iff_example = is_valid_email_iff "ada@mirai.sogos.io"
