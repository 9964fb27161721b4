-- ===== src/Content/Escape.antt =====
-- `escapeHtml` is safe in text and in quoted attributes, and loses nothing.
use mirai_app.Prelude.{ℕ, ◌≡◌, ◌≢◌, refl, [], ◌∷◌, arith, All, All-append}
use mirai_app.Content.Types.{Text}
use mirai_app.Content.Transform.{html_escape, escape_html}

-- A code unit that ends no text and no quoted attribute: not < > " '.
abbrev pub IsInert : ℕ → Type 0
IsInert c = (c ≢ 60) × (c ≢ 62) × (c ≢ 34) × (c ≢ 39)

html_escape-IsInert : (c : ℕ) → All IsInert (html_escape c)
unfolding html_escape
html_escape-IsInert c = ground arith

-- An escaped text holds none of < > " '.
pub escape_html-IsInert : (s : Text) → All IsInert (escape_html s)
unfolding escape_html
escape_html-IsInert [] = tt
escape_html-IsInert (c ∷ cs) =
    All-append IsInert (html_escape c) (escape_html cs) (html_escape-IsInert c)
      (escape_html-IsInert cs)

-- Two texts that escape alike are one text.
pub escape_html_inj : (s t : Text) → escape_html s ≡ escape_html t → s ≡ t
unfolding escape_html
escape_html_inj [] [] h = refl
escape_html_inj [] (d ∷ ds) h = ground arith
escape_html_inj (c ∷ cs) [] h = ground arith
escape_html_inj (c ∷ cs) (d ∷ ds) h = ground (arith, escape_html_inj cs ds)
