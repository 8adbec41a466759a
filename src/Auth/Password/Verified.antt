-- ===== src/Auth/Password/Verified.antt =====
-- internal/auth/password.go: what a hash that was made verifies.
use ssh_access.Prelude.{
  arith, ℕ, ◌≡◌, refl, ap, ◌∙◌, false, some, [], ◌∷◌, ◌++◌, All, eqb, length, subst,
}
use ssh_access.Prelude.Bytes.{Bytes, bytes_equal}
use ssh_access.Prelude.Base64.{std, encode, decode, IsByte, decode-encode, encode-no_dollar}
use ssh_access.Auth.Password.{
  IdKey, argon_time, argon_memory, argon_threads, argon_key_len, bytes_of, settings, split_bytes,
  check_parts, hash_password, verify_password, verify_parts, scan_version, scan_parameters, literal,
  scan_int, scan_uint, skip_space, number, digits,
}

-- argon2.IDKey gives a key of the length that is asked for.
abbrev pub IsKeyDerivation : IdKey → Type 0
IsKeyDerivation id_key =
    (password salt : Bytes) (time memory threads n : ℕ)
    → All IsByte (id_key password salt time memory threads n)
      × (length (id_key password salt time memory threads n) ≡ n)

-- The key of a password under the settings of the program.
abbrev pub derived : IdKey → Bytes → Bytes → Bytes
derived id_key password salt =
    id_key password salt argon_time argon_memory argon_threads argon_key_len

abbrev NoDollar : Bytes → Type 0
NoDollar = All (λ c. eqb c b'$' ≡ false)

split_last : (s : Bytes) → NoDollar s → split_bytes b'$' s ≡ s ∷ []
unfolding split_bytes
split_last [] h = refl
split_last (c ∷ s) (h, hs) = rw (split_last s hs, h) refl

split_append :
    (s t : Bytes) → NoDollar s → split_bytes b'$' (s ++ b'$' ∷ t) ≡ s ∷ split_bytes b'$' t
unfolding split_bytes
split_append [] t h = refl
split_append (c ∷ s) t (h, hs) = rw (split_append s t hs, h) refl

split_encoded :
    (salt hash : Bytes)
    → NoDollar salt
    → NoDollar hash
    → split_bytes b'$' (settings ++ salt ++ b'$' ∷ hash)
      ≡ [] ∷ bytes_of "argon2id" ∷ bytes_of "v=19" ∷ bytes_of "m=65536,t=3,p=4" ∷ salt ∷ hash ∷ []
unfolding split_bytes
split_encoded salt hash hs hh =
    ap (λ rest. [] ∷ bytes_of "argon2id" ∷ bytes_of "v=19" ∷ bytes_of "m=65536,t=3,p=4" ∷ rest)
      (split_append salt hash hs ∙ ap (λ rest. salt ∷ rest) (split_last hash hh))

-- The keys are compared.
check_made :
    (id_key : IdKey) (q salt hash salt_text hash_text : Bytes)
    → decode std salt_text ≡ some salt
    → decode std hash_text ≡ some hash
    → check_parts id_key (bytes_of "v=19") (bytes_of "m=65536,t=3,p=4") salt_text hash_text q
      ≡ some (bytes_equal (id_key q salt 3 65536 4 (length hash)) hash)
unfolding check_parts scan_version scan_parameters literal scan_int scan_uint skip_space number
    digits
check_made id_key q salt hash salt_text hash_text e f = rw (e, f) refl

made :
    (id_key : IdKey) (password q salt : Bytes)
    → IsKeyDerivation id_key
    → All IsByte salt
    → verify_password id_key
        (settings ++ encode std salt ++ b'$' ∷ encode std (derived id_key password salt))
        q
      ≡ some (bytes_equal (derived id_key q salt) (derived id_key password salt))
unfolding verify_password bytes_equal
made id_key password q salt derives bytes =
    let key = derived id_key password salt in
    let (key_bytes, key_length) =
      derives password salt argon_time argon_memory argon_threads argon_key_len in
    let parts =
      split_encoded (encode std salt) (encode std key) (encode-no_dollar std salt bytes)
        (encode-no_dollar std key key_bytes) in
    ap (verify_parts id_key q) parts
    ∙ check_made id_key q salt key (encode std salt) (encode std key) (decode-encode std salt bytes)
        (decode-encode std key key_bytes)
    ∙ ap (λ n. some (bytes_equal (id_key q salt argon_time argon_memory argon_threads n) key))
        key_length

-- The hash that was made of a password is read again, and verifies a password exactly when its key under
-- the salt of the hash is that of the password.
pub verify_password-hash_password :
    (id_key : IdKey) (password q salt encoded : Bytes)
    → IsKeyDerivation id_key
    → All IsByte salt
    → hash_password id_key password (some salt) ≡ some encoded
    → verify_password id_key encoded q
      ≡ some (bytes_equal (derived id_key q salt) (derived id_key password salt))
unfolding hash_password
verify_password-hash_password id_key password q salt encoded derives bytes h =
    let text = settings ++ encode std salt ++ b'$' ∷ encode std (derived id_key password salt) in
    let same : text ≡ encoded = ground arith in
    subst
      (λ e.
        verify_password id_key e q
        ≡ some (bytes_equal (derived id_key q salt) (derived id_key password salt)))
      same (made id_key password q salt derives bytes)
