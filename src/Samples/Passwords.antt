-- ===== src/Samples/Passwords.antt =====
-- Runs of the password hashes of internal/auth.
use ssh_access.Prelude.{arith, ℕ, zero, suc, ◌%◌, ◌≡◌, refl, none, some, [], ◌∷◌, All, length}
use ssh_access.Prelude.Bytes.{Bytes, bytes_equal}
use ssh_access.Prelude.Base64.{IsByte, encode}
use ssh_access.Auth.Password.{IdKey, bytes_of, hash_password, verify_password, split_bytes}
use ssh_access.Auth.Password.Verified.{IsKeyDerivation, derived, verify_password-hash_password}

abbrev copies : ℕ → ℕ → Bytes
copies b zero = []
copies b (suc n) = (b % 256) ∷ copies b n

copies-IsByte : (b n : ℕ) → All IsByte (copies b n)
copies-IsByte b zero = tt
copies-IsByte b (suc n) = (omega arith, copies-IsByte b n)

length-copies : (b n : ℕ) → length (copies b n) ≡ n
length-copies b zero = refl
length-copies b (suc n) = ground (arith, length-copies b n)

-- A derivation that looks only at the length of the password.
abbrev weak : IdKey
weak password salt time memory threads n = copies (length password) n

weak-IsKeyDerivation : IsKeyDerivation weak
weak-IsKeyDerivation password salt time memory threads n =
    (copies-IsByte (length password) n, length-copies (length password) n)

abbrev salt : Bytes
salt = copies 7 16

abbrev stored : Bytes
stored =
    bytes_of
      "$argon2id$v=19$m=65536,t=3,p=4$BwcHBwcHBwcHBwcHBwcHBw$BQUFBQUFBQUFBQUFBQUFBQUFBQUFBQUFBQUFBQUFBQU"

hashed : hash_password weak (bytes_of "horse") (some salt) ≡ some stored
unfolding hash_password encode
hashed = refl

verify_password-hash_password_example :
    verify_password weak stored (bytes_of "mouse2")
    ≡ some
        (bytes_equal (derived weak (bytes_of "mouse2") salt) (derived weak (bytes_of "horse") salt))
verify_password-hash_password_example =
    verify_password-hash_password weak (bytes_of "horse") (bytes_of "mouse2") salt stored
      weak-IsKeyDerivation (copies-IsByte 7 16) hashed

no_method : verify_password weak (bytes_of "$argon2i$v=19$m=1,t=1,p=1$AAAA$AAAA") [] ≡ none
unfolding verify_password split_bytes bytes_equal
no_method = refl
