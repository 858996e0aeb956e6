-- ===== src/Auth/Token.antt =====
-- packages/auth/src/token.ts: tokens, and the hashes that are stored of them.
use assaybank.Prelude.{ℕ, Bool, [], ◌∷◌, ◌++◌}
use assaybank.Prelude.Text.{Text}
use assaybank.Auth.Envelope.{Platform, hmac_hex, constant_time_equals}

-- `v1`
abbrev pub token_hash_version : Text
token_hash_version = b'v' ∷ b'1' ∷ []

-- `assaybank.token.v1`
abbrev pub token_hash_domain : Text
token_hash_domain =
    b'a' ∷ b's' ∷ b's' ∷ b'a' ∷ b'y' ∷ b'b' ∷ b'a' ∷ b'n' ∷ b'k' ∷ b'.' ∷ b't' ∷ b'o' ∷ b'k' ∷ b'e'
    ∷ b'n' ∷ b'.' ∷ b'v' ∷ b'1' ∷ []

abbrev pub separator : ℕ
separator = 0x1f

unfoldable pub hash_token : Platform → Text → Text → Text
unfolding hmac_hex
hash_token env plaintext pepper =
    token_hash_version
    ++ (b'$' ∷ hmac_hex env pepper (token_hash_domain ++ (separator ∷ plaintext)))

unfoldable pub verify_token : Platform → Text → Text → Text → Bool
unfolding hash_token constant_time_equals
verify_token env plaintext hash pepper = constant_time_equals (hash_token env plaintext pepper) hash
