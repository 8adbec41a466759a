-- ===== src/Auth/Tokens.antt =====
-- internal/auth/session.go: session tokens and login codes, with their hashes. SHA-256 is a parameter, and the
-- bytes of rand.Read are an argument, `none` where it fails.
use ssh_access.Prelude.{◌≡◌, sym, ap, ◌∙◌, Option, none, some, All, arith}
use ssh_access.Prelude.Bytes.{Bytes}
use ssh_access.Prelude.Base64.{url, encode, decode, IsByte, decode-encode}

module _ (sha256 : Bytes → Bytes) where
  -- HashSessionToken
  unfoldable pub hash_session_token : Bytes → Bytes
  hash_session_token token = sha256 token

  -- NewSessionToken: the token and its hash
  unfoldable pub new_session_token : Option Bytes → Option (Bytes × Bytes)
  new_session_token none = none
  new_session_token (some raw) = some (encode url raw, sha256 (encode url raw))

  -- NewLoginCode
  unfoldable pub new_login_code : Option Bytes → Option (Bytes × Bytes)
  unfolding new_session_token
  new_login_code raw = new_session_token raw

  -- HashLoginCode
  unfoldable pub hash_login_code : Bytes → Bytes
  unfolding hash_session_token
  hash_login_code code = hash_session_token code

  token_of :
      (raw token hash : Bytes)
      → new_session_token (some raw) ≡ some (token, hash)
      → encode url raw ≡ token
  unfolding new_session_token
  token_of raw token hash h = ground arith

  some_injective : (a b : Bytes) → some a ≡ some b → a ≡ b
  some_injective a b h = ground arith

  -- The stored hash is that of the token, and different random bytes give different tokens.
  pub new_session_token_unique :
      (raw raw' token hash hash' : Bytes)
      → All IsByte raw
      → All IsByte raw'
      → new_session_token (some raw) ≡ some (token, hash)
      → new_session_token (some raw') ≡ some (token, hash')
      → (hash ≡ hash_session_token token) × (raw ≡ raw')
  unfolding new_session_token hash_session_token
  new_session_token_unique raw raw' token hash hash' b b' h h' = (
    ground (arith, token_of raw token hash h),
    some_injective raw raw' (
        sym (decode-encode url raw b)
        ∙ ap (decode url) (token_of raw token hash h ∙ sym (token_of raw' token hash' h'))
        ∙ decode-encode url raw' b'),
  )
