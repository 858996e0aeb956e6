-- ===== src/Api/Tests/Requests.antt =====
-- A request with both halves of its token, on a platform whose hash is constant.
use assaybank.Prelude.{arith, ◌≡◌, refl, true, false, none, some, [], ◌∷◌, ◌++◌}
use assaybank.Prelude.Text.{Text}
use assaybank.Prelude.Parts.{Lacks}
use assaybank.Auth.Envelope.{Platform}
use assaybank.Api.Csrf.{
  token, CsrfTokenOptions, CsrfOptions, CsrfRequest, state_changing_methods, safe_fetch_sites,
  token_exempt_paths, insecure_csrf_cookie, insecure_session_cookie, includes, upper_case,
  read_cookie, session_cookie_name, csrf_cookie_name, mint_csrf_token, verify_csrf_token, path_of,
  csrf_rejection,
}
use assaybank.Api.Csrf.Accepted.{csrf_rejection-none, verify-mint_csrf_token}

abbrev platform : Platform
platform = record {
  hmac_sha256_hex = λ key message. b'f' ∷ b'f' ∷ [];
  to_base64url = λ t. t;
  of_base64url = λ t. t;
  stringify = λ c. b'{' ∷ b'}' ∷ [];
  parse = λ t. none;
}

abbrev token_options : CsrfTokenOptions
token_options = record { secret = b'k' ∷ []; secure = false }

abbrev options : CsrfOptions
options = record { allowed_origins = (b'a' ∷ []) ∷ (b'b' ∷ []) ∷ []; token = some token_options }

-- `n.ff`
abbrev minted : Text
minted = b'n' ∷ b'.' ∷ b'f' ∷ b'f' ∷ []

-- The session's cookie is `s`, and the token's follows after a space.
abbrev cookies : Text
cookies =
    insecure_session_cookie
    ++ (b'=' ∷ b's' ∷ b';' ∷ b' ' ∷ (insecure_csrf_cookie ++ (b'=' ∷ minted)))

-- A `post` to `/x?y` from the second origin.
abbrev request : CsrfRequest
request = record {
  method = b'p' ∷ b'o' ∷ b's' ∷ b't' ∷ [];
  url = b'/' ∷ b'x' ∷ b'?' ∷ b'y' ∷ [];
  cookie = some cookies;
  origin = some (b'b' ∷ []);
  fetch_site = none;
  csrf_token = some minted;
}

is_post : includes (upper_case request.method) state_changing_methods ≡ true
unfolding includes upper_case
is_post = refl

is_accepted : csrf_rejection platform options request ≡ none
unfolding csrf_rejection
is_accepted = refl

no_header : csrf_rejection platform options (record request { csrf_token = none }) ≡ some token
unfolding csrf_rejection
no_header = refl

csrf_rejection-none_example :
    ((o : Text) → request.origin ≡ some o → includes o options.allowed_origins ≡ true)
    × ((site : Text) → request.fetch_site ≡ some site → includes site safe_fetch_sites ≡ true)
    × ((t : CsrfTokenOptions) (session : Text)
        → options.token ≡ some t
        → read_cookie request.cookie (session_cookie_name t.secure) ≡ some session
        → includes (path_of request.url) token_exempt_paths ≡ false
        → (nonce : Text) × (request.csrf_token
            ≡ some (mint_csrf_token platform t.secret nonce session))
          × (read_cookie request.cookie (csrf_cookie_name t.secure)
              ≡ some (mint_csrf_token platform t.secret nonce session)))
csrf_rejection-none_example =
    csrf_rejection-none platform options request cookies is_post refl is_accepted

verify-mint_csrf_token_example :
    verify_csrf_token platform
      (b'k' ∷ [])
      (b's' ∷ [])
      (mint_csrf_token platform (b'k' ∷ []) (b'n' ∷ []) (b's' ∷ []))
    ≡ true
unfolding Lacks
verify-mint_csrf_token_example =
    verify-mint_csrf_token platform (b'k' ∷ []) (b'n' ∷ []) (b's' ∷ []) (λ e. ground arith)
      (omega arith)
