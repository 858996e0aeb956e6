-- ===== src/Markdown/Tests.antt =====
-- Destinations at concrete inputs.
use assaybank.Prelude.{ℕ, ◌<◌, ◌≡◌, refl, none, some, [], ◌∷◌, ◌++◌, length, arith}
use assaybank.Prelude.Text.{Text}
use assaybank.Markdown.Url.{safe_url}
use assaybank.Markdown.Url.Schemes.{IsScheme, IsAllowed, safe_url_ok}
use assaybank.Markdown.Url.Hosts.{safe_url-host}

-- `HTTP://a`
abbrev link : Text
link = b'H' ∷ b'T' ∷ b'T' ∷ b'P' ∷ b':' ∷ b'/' ∷ b'/' ∷ b'a' ∷ []

-- The first letter as a reference, and a tab inside: `&#72;T<tab>TP://a`
abbrev disguised : Text
disguised =
    b'&' ∷ b'#' ∷ b'7' ∷ b'2' ∷ b';' ∷ b'T' ∷ 9 ∷ b'T' ∷ b'P' ∷ b':' ∷ b'/' ∷ b'/' ∷ b'a' ∷ []

disguised_ok : safe_url disguised ≡ some link
unfolding safe_url
disguised_ok = refl

-- `&#x6a;avascript&colon;x`
disguised_script :
    safe_url (
      b'&' ∷ b'#' ∷ b'x' ∷ b'6' ∷ b'a' ∷ b';' ∷ b'a' ∷ b'v' ∷ b'a' ∷ b's' ∷ b'c' ∷ b'r' ∷ b'i'
      ∷ b'p' ∷ b't' ∷ b'&' ∷ b'c' ∷ b'o' ∷ b'l' ∷ b'o' ∷ b'n' ∷ b';' ∷ b'x' ∷ [])
    ≡ none
unfolding safe_url
disguised_script = refl

-- `/&amp;lt;` is decoded twice.
decoded_twice :
    safe_url (b'/' ∷ b'&' ∷ b'a' ∷ b'm' ∷ b'p' ∷ b';' ∷ b'l' ∷ b't' ∷ b';' ∷ [])
    ≡ some (b'/' ∷ b'<' ∷ [])
unfolding safe_url
decoded_twice = refl

safe_url_ok_example :
    (0 < length link)
    × ((c : ℕ) (rest : Text) → link ≡ c ∷ rest → 0x20 < c)
    × ((s rest : Text) → IsScheme s → link ≡ s ++ (b':' ∷ rest) → IsAllowed s)
safe_url_ok_example = safe_url_ok disguised link disguised_ok

safe_url-host_example :
    safe_url (b'/' ∷ b'/' ∷ b'a' ∷ b'.' ∷ b'b' ∷ []) ≡ some (b'/' ∷ b'/' ∷ b'a' ∷ b'.' ∷ b'b' ∷ [])
safe_url-host_example = safe_url-host (b'a' ∷ b'.' ∷ b'b' ∷ []) (omega arith)
