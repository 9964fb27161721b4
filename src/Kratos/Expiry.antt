-- ===== src/Kratos/Expiry.antt =====
-- Which failures of a request the login machine takes for an expired flow.
use Prim.Native.Char.{code}
use Prim.Native.String.{char_at}
use mirai_app.Prelude.{
  ◌≡◌, refl, ap, ◌∙◌, ℕ, ◌+◌, ◌/◌, ◌%◌, ◌<◌, zero, suc, String, Bool, ◌||◌, ◌&&◌, List, ◌∷◌, ◌++◌,
  map, arith, nat_eq,
}
use mirai_app.Prelude.Js.{
  Thrown, is_error, message_or, units, includes, to_lower, char_units, has_prefix,
}
use mirai_app.Login.{says_expired}
use mirai_app.Kratos.{http_error}

-- The code units of a joined text, in lower case.
abbrev pub lowered : String → List ℕ
lowered s = map to_lower (units s)

-- `isFlowExpiredError` of the client.
unfoldable pub is_flow_expired_error : Thrown → Bool
unfolding says_expired message_or
is_flow_expired_error e = is_error e && says_expired (message_or e "")

-- A digit's code unit, which `toLowerCase` keeps.
lowered_digit :
    (d : ℕ) (rest : List ℕ)
    → d < 10
    → map to_lower (char_units (code (char_at "0123456789" d)) ++ rest)
      ≡ (48 + d) ∷ map to_lower rest
unfolding to_lower
lowered_digit zero rest h = refl
lowered_digit (suc zero) rest h = refl
lowered_digit (suc (suc zero)) rest h = refl
lowered_digit (suc (suc (suc zero))) rest h = refl
lowered_digit (suc (suc (suc (suc zero)))) rest h = refl
lowered_digit (suc (suc (suc (suc (suc zero))))) rest h = refl
lowered_digit (suc (suc (suc (suc (suc (suc zero)))))) rest h = refl
lowered_digit (suc (suc (suc (suc (suc (suc (suc zero))))))) rest h = refl
lowered_digit (suc (suc (suc (suc (suc (suc (suc (suc zero)))))))) rest h = refl
lowered_digit (suc (suc (suc (suc (suc (suc (suc (suc (suc zero))))))))) rest h = refl
lowered_digit (suc (suc (suc (suc (suc (suc (suc (suc (suc (suc d)))))))))) rest h =
    absurd (omega arith)

-- A status line in lower case: "http", a blank, three digits, a colon and a blank.
abbrev status_line : ℕ → ℕ → ℕ → List ℕ → List ℕ
status_line a b c m = 104 ∷ 116 ∷ 116 ∷ 112 ∷ 32 ∷ (48 + a) ∷ (48 + b) ∷ (48 + c) ∷ 58 ∷ 32 ∷ m

lowered-http_error :
    (status : ℕ) (m : String)
    → lowered (message_or (http_error status m) "")
      ≡ status_line (status / 100 % 10) (status / 10 % 10) (status % 10) (lowered m)
unfolding http_error message_or units to_lower
lowered-http_error status m =
    ap (λ l. 104 ∷ 116 ∷ 116 ∷ 112 ∷ 32 ∷ l)
      (lowered_digit (status / 100 % 10) _ (omega arith)
        ∙ ap (λ l. (48 + status / 100 % 10) ∷ l)
            (lowered_digit (status / 10 % 10) _ (omega arith)
              ∙ ap (λ l. (48 + status / 10 % 10) ∷ l)
                  (lowered_digit (status % 10) _ (omega arith))))

module _ (m : List ℕ) (a b c : ℕ) (ha : a < 10) (hb : b < 10) (hc : c < 10) where
  finds_410 :
      includes (status_line a b c m) (units "410")
      ≡ (nat_eq a 4 && nat_eq b 1 && nat_eq c 0 || includes m (units "410"))
  unfolding includes units has_prefix
  finds_410 = ground arith

  finds_404 :
      includes (status_line a b c m) (units "404")
      ≡ (nat_eq a 4 && nat_eq b 0 && nat_eq c 4 || includes m (units "404"))
  unfolding includes units has_prefix
  finds_404 = ground arith

  finds_gone : includes (status_line a b c m) (units "gone") ≡ includes m (units "gone")
  unfolding includes units has_prefix
  finds_gone = ground arith

  finds_expired : includes (status_line a b c m) (units "expired") ≡ includes m (units "expired")
  unfolding includes units has_prefix
  finds_expired = ground arith

  finds_not_found :
      includes (status_line a b c m) (units "not found") ≡ includes m (units "not found")
  unfolding includes units has_prefix
  finds_not_found = ground arith

-- The tests of `says_expired` on a text in lower case.
lower_says : List ℕ → Bool
lower_says m =
    includes m (units "410")
    || includes m (units "gone")
    || includes m (units "expired")
    || includes m (units "404")
    || includes m (units "not found")

lower_says-status_line :
    (m : List ℕ) (a b c : ℕ)
    → a < 10
    → b < 10
    → c < 10
    → lower_says (status_line a b c m) ≡ (
        nat_eq a 4 && nat_eq b 1 && nat_eq c 0
        || nat_eq a 4 && nat_eq b 0 && nat_eq c 4
        || lower_says m)
unfolding lower_says
lower_says-status_line m a b c ha hb hc = ground (
  arith,
  finds_410 m a b c ha hb hc,
  finds_404 m a b c ha hb hc,
  finds_gone m a b c ha hb hc,
  finds_expired m a b c ha hb hc,
  finds_not_found m a b c ha hb hc,
)

says_expired-lowered : (m : String) → says_expired m ≡ lower_says (lowered m)
unfolding says_expired lower_says
says_expired-lowered m = refl

digits_410 :
    (n : ℕ)
    → n < 1000
    → (nat_eq (n / 100 % 10) 4 && nat_eq (n / 10 % 10) 1 && nat_eq (n % 10) 0) ≡ nat_eq n 410
digits_410 n h = ground arith

digits_404 :
    (n : ℕ)
    → n < 1000
    → (nat_eq (n / 100 % 10) 4 && nat_eq (n / 10 % 10) 0 && nat_eq (n % 10) 4) ≡ nat_eq n 404
digits_404 n h = ground arith

http_error-message :
    (status : ℕ) (m : String)
    → is_flow_expired_error (http_error status m)
      ≡ lower_says (lowered (message_or (http_error status m) ""))
unfolding is_flow_expired_error http_error message_or
http_error-message status m = says_expired-lowered (message_or (http_error status m) "")

-- A failed request counts as an expired flow exactly if its status is 410 or 404, or the message in
-- its body says so, whatever its status is.
pub http_error_expires :
    (status : ℕ) (m : String)
    → status < 1000
    → is_flow_expired_error (http_error status m)
      ≡ (nat_eq status 410 || nat_eq status 404 || says_expired m)
http_error_expires status m h =
    http_error-message status m
    ∙ ap lower_says (lowered-http_error status m)
    ∙ lower_says-status_line (lowered m) _ _ _ (omega arith) (omega arith) (omega arith)
    ∙ rw (digits_410 status h, digits_404 status h, says_expired-lowered m) refl
