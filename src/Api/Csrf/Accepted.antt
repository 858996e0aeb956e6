-- ===== src/Api/Csrf/Accepted.antt =====
-- What an accepted request has proved.
use assaybank.Prelude.{
  ◌≡◌, ◌≢◌, refl, sym, ap, ◌∙◌, Bool, true, false, not, Option, none, some, List, [], ◌∷◌, arith,
  if◌then◌else◌, subst,
}
use assaybank.Prelude.Text.{Text, eq_of_eq_text, eq_text_refl}
use assaybank.Prelude.Parts.{Lacks, cut, cut-some, cut-append}
use assaybank.Auth.Envelope.{Platform, constant_time_equals}
use assaybank.Api.Csrf.{
  CsrfRejection, origin, fetch_site, CsrfTokenOptions, CsrfOptions, CsrfRequest,
  state_changing_methods, safe_fetch_sites, token_exempt_paths, includes, upper_case, read_cookie,
  session_cookie_name, csrf_cookie_name, sign, mint_csrf_token, verify_parts, verify_csrf_token,
  path_of, token_rejection, session_rejection, configured_rejection, is_foreign, has_cookies,
  csrf_rejection,
}

-- A token that is minted for a session is verified for it, if the nonce is not empty and has no dot.
pub verify-mint_csrf_token :
    (env : Platform) (secret nonce session : Text)
    → nonce ≢ []
    → Lacks b'.' nonce
    → verify_csrf_token env secret session (mint_csrf_token env secret nonce session) ≡ true
unfolding verify_csrf_token mint_csrf_token verify_parts constant_time_equals
verify-mint_csrf_token env secret [] session h l = absurd (h refl)
verify-mint_csrf_token env secret (c ∷ nonce) session h l =
    rw (cut-append b'.' (c ∷ nonce) (sign env secret (c ∷ nonce) session) l)
      (eq_text_refl (sign env secret (c ∷ nonce) session))

verify_parts_lem :
    (env : Platform) (secret session : Text) (parts : Option (Text × Text))
    → verify_parts env secret session parts ≡ true
    → (nonce : Text) × (parts ≡ some (nonce, sign env secret nonce session))
unfolding verify_parts constant_time_equals
verify_parts_lem env secret session none h = cc
verify_parts_lem env secret session (some ([], signature)) h = cc
verify_parts_lem env secret session (some (c ∷ nonce, signature)) h = (
  c ∷ nonce,
  ap (λ s. some (c ∷ nonce, s))
      (sym (eq_of_eq_text (sign env secret (c ∷ nonce) session) signature h)),
)

-- A token that is verified was made for the session with the secret.
verify_csrf_token_lem :
    (env : Platform) (secret session presented : Text)
    → verify_csrf_token env secret session presented ≡ true
    → (nonce : Text) × (presented ≡ mint_csrf_token env secret nonce session)
unfolding verify_csrf_token mint_csrf_token
verify_csrf_token_lem env secret session presented h =
    let (nonce, e) = verify_parts_lem env secret session (cut b'.' presented) h in
    (nonce, cut-some b'.' presented nonce (sign env secret nonce session) e)

token_rejection-none :
    (env : Platform) (secret session : Text) (presented stored : Option Text)
    → token_rejection env secret session presented stored ≡ none
    → (nonce : Text) × (presented ≡ some (mint_csrf_token env secret nonce session))
      × (stored ≡ some (mint_csrf_token env secret nonce session))
unfolding token_rejection
token_rejection-none env secret session none stored h = cc
token_rejection-none env secret session (some presented) none h = cc
token_rejection-none env secret session (some presented) (some stored) h =
    let (nonce, e) = verify_csrf_token_lem env secret session presented (ground arith) in
    let same : presented ≡ stored = eq_of_eq_text presented stored (ground arith) in
    (nonce, ap (λ t. some t) e, ap (λ t. some t) (sym same ∙ e))

configured_lem :
    (env : Platform) (request : CsrfRequest) (options : Option CsrfTokenOptions)
    (t : CsrfTokenOptions) (session : Text)
    → options ≡ some t
    → read_cookie request.cookie (session_cookie_name t.secure) ≡ some session
    → includes (path_of request.url) token_exempt_paths ≡ false
    → configured_rejection env request options
      ≡ token_rejection env t.secret session request.csrf_token
          (read_cookie request.cookie (csrf_cookie_name t.secure))
unfolding configured_rejection session_rejection
configured_lem env request options t session e c x = rw (e, c, x) refl

configured_rejection-none :
    (env : Platform) (request : CsrfRequest) (options : Option CsrfTokenOptions)
    (t : CsrfTokenOptions) (session : Text)
    → options ≡ some t
    → read_cookie request.cookie (session_cookie_name t.secure) ≡ some session
    → includes (path_of request.url) token_exempt_paths ≡ false
    → configured_rejection env request options ≡ none
    → (nonce : Text) × (request.csrf_token ≡ some (mint_csrf_token env t.secret nonce session))
      × (read_cookie request.cookie (csrf_cookie_name t.secure)
          ≡ some (mint_csrf_token env t.secret nonce session))
configured_rejection-none env request options t session e c x h =
    token_rejection-none env t.secret session request.csrf_token _
      (sym (configured_lem env request options t session e c x) ∙ h)

-- The value is one of those that are accepted, if there is one.
is_foreign_lem :
    (value : Option Text) (accepted : List Text)
    → is_foreign value accepted ≡ false
    → (v : Text) → value ≡ some v
    → includes v accepted ≡ true
unfolding is_foreign
is_foreign_lem none accepted h v e = cc
is_foreign_lem (some w) accepted h v e =
    let same : w ≡ v = ground (arith, e) in
    subst (λ t. includes t accepted ≡ true) same (ground (arith, h))

has_cookies-some :
    (cookie : Option Text) (cookies : Text) → cookie ≡ some cookies → has_cookies cookie ≡ true
unfolding has_cookies
has_cookies-some none cookies e = cc
has_cookies-some (some c) cookies e = refl

guards_none :
    (unsafe has_cookie foreign_origin foreign_site : Bool) (rest : Option CsrfRejection)
    → unsafe ≡ true
    → has_cookie ≡ true
    → (if not unsafe
        then none
        else if not has_cookie
        then none
        else if foreign_origin
        then some origin
        else if foreign_site
        then some fetch_site
        else rest)
      ≡ none
    → (foreign_origin ≡ false) × (foreign_site ≡ false) × (rest ≡ none)
guards_none false has_cookie foreign_origin foreign_site rest u c h = cc
guards_none true false foreign_origin foreign_site rest u c h = cc
guards_none true true true foreign_site rest u c h = cc
guards_none true true false true rest u c h = cc
guards_none true true false false rest u c h = (refl, refl, h)

parts_none :
    (env : Platform) (options : CsrfOptions) (request : CsrfRequest) (cookies : Text)
    → includes (upper_case request.method) state_changing_methods ≡ true
    → request.cookie ≡ some cookies
    → csrf_rejection env options request ≡ none
    → (is_foreign request.origin options.allowed_origins ≡ false)
      × (is_foreign request.fetch_site safe_fetch_sites ≡ false)
      × (configured_rejection env request options.token ≡ none)
unfolding csrf_rejection
parts_none env options request cookies m c h =
    guards_none (includes (upper_case request.method) state_changing_methods)
      (has_cookies request.cookie) (is_foreign request.origin options.allowed_origins)
      (is_foreign request.fetch_site safe_fetch_sites)
      (configured_rejection env request options.token) m (has_cookies-some request.cookie cookies c)
      h

-- A request that may change state although it carries cookies comes from an allowed origin, if it
-- names one, and from a safe site, if it names one; and where tokens are configured, the cookies carry
-- a session and the path is not exempt, its header and its cookie both have a token that was made for
-- that very session with the secret.
pub csrf_rejection-none :
    (env : Platform) (options : CsrfOptions) (request : CsrfRequest) (cookies : Text)
    → includes (upper_case request.method) state_changing_methods ≡ true
    → request.cookie ≡ some cookies
    → csrf_rejection env options request ≡ none
    → ((o : Text) → request.origin ≡ some o → includes o options.allowed_origins ≡ true)
      × ((site : Text) → request.fetch_site ≡ some site → includes site safe_fetch_sites ≡ true)
      × ((t : CsrfTokenOptions) (session : Text)
          → options.token ≡ some t
          → read_cookie request.cookie (session_cookie_name t.secure) ≡ some session
          → includes (path_of request.url) token_exempt_paths ≡ false
          → (nonce : Text) × (request.csrf_token
              ≡ some (mint_csrf_token env t.secret nonce session))
            × (read_cookie request.cookie (csrf_cookie_name t.secure)
                ≡ some (mint_csrf_token env t.secret nonce session)))
csrf_rejection-none env options request cookies m c h =
    let (o, s, r) = parts_none env options request cookies m c h in
    (
      is_foreign_lem request.origin options.allowed_origins o,
      is_foreign_lem request.fetch_site safe_fetch_sites s,
      λ t session e k x. configured_rejection-none env request options.token t session e k x r,
    )
