-- ===== src/Api/Csrf.antt =====
-- apps/api/src/csrf.ts with auth/csrf-token.ts, auth/cookie-names.ts and `readCookie` of
-- auth/oidc-org-cookie.ts there: which requests may change state. A request has what `header` gives
-- of each header; the hash is that of `Platform`, and random bytes are an argument.
pub mod Accepted
use assaybank.Prelude.{
  ℕ, ◌-◌, Bool, true, false, not, ◌&&◌, Option, none, some, List, [], ◌∷◌, ◌++◌, any, leb,
  if◌then◌else◌,
}
use assaybank.Prelude.Text.{Text, trim, eq_text}
use assaybank.Prelude.Parts.{split_on, cut}
use assaybank.Auth.Envelope.{Platform, hmac_hex, constant_time_equals}

pub data CsrfRejection : Type 0 where
  origin fetch_site token : CsrfRejection

pub record CsrfTokenOptions : Type 0 where
  pub secret : Text
  pub secure : Bool

pub record CsrfOptions : Type 0 where
  pub allowed_origins : List Text
  pub token : Option CsrfTokenOptions

-- The path's query is part of `url`.
pub record CsrfRequest : Type 0 where
  pub method : Text
  pub url : Text
  pub cookie : Option Text
  pub origin : Option Text
  pub fetch_site : Option Text
  pub csrf_token : Option Text

-- `POST`, `PUT`, `PATCH` and `DELETE`.
abbrev pub state_changing_methods : List Text
state_changing_methods =
    (b'P' ∷ b'O' ∷ b'S' ∷ b'T' ∷ [])
    ∷ (b'P' ∷ b'U' ∷ b'T' ∷ [])
    ∷ (b'P' ∷ b'A' ∷ b'T' ∷ b'C' ∷ b'H' ∷ [])
    ∷ (b'D' ∷ b'E' ∷ b'L' ∷ b'E' ∷ b'T' ∷ b'E' ∷ [])
    ∷ []

-- `same-origin` and `none`.
abbrev pub safe_fetch_sites : List Text
safe_fetch_sites =
    (b's' ∷ b'a' ∷ b'm' ∷ b'e' ∷ b'-' ∷ b'o' ∷ b'r' ∷ b'i' ∷ b'g' ∷ b'i' ∷ b'n' ∷ [])
    ∷ (b'n' ∷ b'o' ∷ b'n' ∷ b'e' ∷ [])
    ∷ []

-- `/api/v1/auth/login` and `/api/v1/auth/oidc/start`.
abbrev pub token_exempt_paths : List Text
token_exempt_paths =
    (b'/' ∷ b'a' ∷ b'p' ∷ b'i' ∷ b'/' ∷ b'v' ∷ b'1' ∷ b'/' ∷ b'a' ∷ b'u' ∷ b't' ∷ b'h' ∷ b'/' ∷ b'l'
      ∷ b'o' ∷ b'g' ∷ b'i' ∷ b'n' ∷ [])
    ∷ (b'/' ∷ b'a' ∷ b'p' ∷ b'i' ∷ b'/' ∷ b'v' ∷ b'1' ∷ b'/' ∷ b'a' ∷ b'u' ∷ b't' ∷ b'h' ∷ b'/'
        ∷ b'o' ∷ b'i' ∷ b'd' ∷ b'c' ∷ b'/' ∷ b's' ∷ b't' ∷ b'a' ∷ b'r' ∷ b't' ∷ [])
    ∷ []

-- `assaybank.csrf-token.v1`
abbrev pub token_domain : Text
token_domain =
    b'a' ∷ b's' ∷ b's' ∷ b'a' ∷ b'y' ∷ b'b' ∷ b'a' ∷ b'n' ∷ b'k' ∷ b'.' ∷ b'c' ∷ b's' ∷ b'r' ∷ b'f'
    ∷ b'-' ∷ b't' ∷ b'o' ∷ b'k' ∷ b'e' ∷ b'n' ∷ b'.' ∷ b'v' ∷ b'1' ∷ []

-- `assaybank.csrf_token`
abbrev pub insecure_csrf_cookie : Text
insecure_csrf_cookie =
    b'a' ∷ b's' ∷ b's' ∷ b'a' ∷ b'y' ∷ b'b' ∷ b'a' ∷ b'n' ∷ b'k' ∷ b'.' ∷ b'c' ∷ b's' ∷ b'r' ∷ b'f'
    ∷ b'_' ∷ b't' ∷ b'o' ∷ b'k' ∷ b'e' ∷ b'n' ∷ []

-- `assaybank.session_token`
abbrev pub insecure_session_cookie : Text
insecure_session_cookie =
    b'a' ∷ b's' ∷ b's' ∷ b'a' ∷ b'y' ∷ b'b' ∷ b'a' ∷ b'n' ∷ b'k' ∷ b'.' ∷ b's' ∷ b'e' ∷ b's' ∷ b's'
    ∷ b'i' ∷ b'o' ∷ b'n' ∷ b'_' ∷ b't' ∷ b'o' ∷ b'k' ∷ b'e' ∷ b'n' ∷ []

-- `__Host-`
abbrev pub host_prefix : Text
host_prefix = b'_' ∷ b'_' ∷ b'H' ∷ b'o' ∷ b's' ∷ b't' ∷ b'-' ∷ []

abbrev pub separator : ℕ
separator = 0x1f

-- `Set.prototype.has` and `Array.prototype.includes`.
unfoldable pub includes : Text → List Text → Bool
unfolding eq_text
includes t l = any (λ s. eq_text s t) l

-- `toUpperCase` on a method, which is ASCII.
unfoldable pub upper_case : Text → Text
upper_case [] = []
upper_case (c ∷ s) = (if leb b'a' c && leb c b'z' then c - 32 else c) ∷ upper_case s

-- One part of a cookie header: the value, if it is of that name, which is not empty.
unfoldable pub cookie_value : Text → Option (Text × Text) → Option Text
unfolding eq_text
cookie_value name none = none
cookie_value name (some ([], value)) = none
cookie_value name (some (c ∷ key, value)) = if eq_text (c ∷ key) name then some value else none

abbrev or_else : Option Text → Option Text → Option Text
or_else (some value) rest = some value
or_else none rest = rest

unfoldable pub find_cookie : Text → List Text → Option Text
unfolding cookie_value cut trim
find_cookie name [] = none
find_cookie name (part ∷ parts) =
    or_else (cookie_value name (cut b'=' (trim part))) (find_cookie name parts)

unfoldable pub read_cookie : Option Text → Text → Option Text
unfolding find_cookie split_on
read_cookie none name = none
read_cookie (some header) name = find_cookie name (split_on b';' header)

-- The names of the session's cookie and of the token's.
unfoldable pub session_cookie_name : Bool → Text
session_cookie_name secure =
    if secure then host_prefix ++ insecure_session_cookie else insecure_session_cookie

unfoldable pub csrf_cookie_name : Bool → Text
csrf_cookie_name secure =
    if secure then host_prefix ++ insecure_csrf_cookie else insecure_csrf_cookie

unfoldable pub sign : Platform → Text → Text → Text → Text
unfolding hmac_hex
sign env secret nonce session =
    hmac_hex env secret (token_domain ++ (separator ∷ (nonce ++ (separator ∷ session))))

unfoldable pub mint_csrf_token : Platform → Text → Text → Text → Text
unfolding sign
mint_csrf_token env secret nonce session = nonce ++ (b'.' ∷ sign env secret nonce session)

unfoldable pub verify_parts : Platform → Text → Text → Option (Text × Text) → Bool
unfolding sign constant_time_equals
verify_parts env secret session none = false
verify_parts env secret session (some ([], signature)) = false
verify_parts env secret session (some (c ∷ nonce, signature)) =
    constant_time_equals (sign env secret (c ∷ nonce) session) signature

unfoldable pub verify_csrf_token : Platform → Text → Text → Text → Bool
unfolding verify_parts cut
verify_csrf_token env secret session presented =
    verify_parts env secret session (cut b'.' presented)

-- The path without the query.
unfoldable pub path_of : Text → Text
unfolding cut
path_of url = elim (cut b'?' url) [ none ↦ url | some parts ↦ parts.0 ]

-- Both halves of the double submit.
unfoldable pub token_rejection :
    Platform → Text → Text → Option Text → Option Text → Option CsrfRejection
unfolding verify_csrf_token eq_text
token_rejection env secret session (some presented) (some stored) =
    if not (eq_text presented stored)
    then some token
    else if not (verify_csrf_token env secret session presented)
    then some token
    else none
token_rejection env secret session _ _ = some token

-- The half of the token, for the session that the cookies carry.
unfoldable pub session_rejection :
    Platform → CsrfRequest → CsrfTokenOptions → Option Text → Option CsrfRejection
unfolding token_rejection read_cookie csrf_cookie_name includes path_of
session_rejection env request options none = none
session_rejection env request options (some session) =
    if includes (path_of request.url) token_exempt_paths
    then none
    else token_rejection env options.secret session request.csrf_token
        (read_cookie request.cookie (csrf_cookie_name options.secure))

unfoldable pub configured_rejection :
    Platform → CsrfRequest → Option CsrfTokenOptions → Option CsrfRejection
unfolding session_rejection read_cookie session_cookie_name
configured_rejection env request none = none
configured_rejection env request (some options) =
    session_rejection env request options
      (read_cookie request.cookie (session_cookie_name options.secure))

-- A header that is there and not among the accepted values.
unfoldable pub is_foreign : Option Text → List Text → Bool
unfolding includes
is_foreign none accepted = false
is_foreign (some value) accepted = not (includes value accepted)

unfoldable pub has_cookies : Option Text → Bool
has_cookies none = false
has_cookies (some cookies) = true

unfoldable pub csrf_rejection : Platform → CsrfOptions → CsrfRequest → Option CsrfRejection
unfolding configured_rejection is_foreign includes upper_case has_cookies
csrf_rejection env options request =
    if not (includes (upper_case request.method) state_changing_methods)
    then none
    else if not (has_cookies request.cookie)
    then none
    else if is_foreign request.origin options.allowed_origins
    then some origin
    else if is_foreign request.fetch_site safe_fetch_sites
    then some fetch_site
    else configured_rejection env request options.token
