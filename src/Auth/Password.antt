-- ===== src/Auth/Password.antt =====
-- internal/auth/password.go: password hashes of argon2id, as strings of bytes. argon2.IDKey is a parameter,
-- whose panic on no rounds or no threads is left out; fmt.Sscanf is written out for the two formats,
-- with the spaces of ASCII.
pub mod Verified
use Prim.Native.Char.{code}
use ssh_access.Prelude.{
  ℕ, ◌+◌, ◌*◌, ◌-◌, ◌^◌, Bool, true, false, not, ◌&&◌, ◌||◌, Option, none, some, String, List, [],
  ◌∷◌, ◌++◌, eqb, leb, ltb, length, is_empty, if◌then◌else◌,
}
use ssh_access.Prelude.Bytes.{Bytes, bytes_equal, ◌>>=◌}
use ssh_access.Prelude.Base64.{std, encode, decode}

-- password, salt, time, memory, threads, length of the key
abbrev pub IdKey : Type 0
IdKey = Bytes → Bytes → ℕ → ℕ → ℕ → ℕ → Bytes

abbrev pub argon_time : ℕ
argon_time = 3

abbrev pub argon_memory : ℕ
argon_memory = 64 * 1024

abbrev pub argon_threads : ℕ
argon_threads = 4

abbrev pub argon_key_len : ℕ
argon_key_len = 32

abbrev pub argon_version : ℕ
argon_version = 19

abbrev pub bytes_of : String → Bytes
bytes_of String.[] = []
bytes_of (String.◌∷◌ c s) = code c ∷ bytes_of s

-- What Sprintf writes before the salt.
abbrev pub settings : Bytes
settings = bytes_of "$argon2id$v=19$m=65536,t=3,p=4$"

-- HashPassword; the salt is what rand.Read gives, and `none` where it fails.
unfoldable pub hash_password : IdKey → Bytes → Option Bytes → Option Bytes
hash_password id_key password salt = if is_empty password then none else (elim salt [
  | none ↦ none
  | some s ↦ some (
      settings
      ++ encode std s
      ++ b'$' ∷ encode std (id_key password s argon_time argon_memory argon_threads argon_key_len))
])

abbrev onto_head : ℕ → List Bytes → List Bytes
onto_head c [] = (c ∷ []) ∷ []
onto_head c (part ∷ parts) = (c ∷ part) ∷ parts

-- strings.Split at a byte
unfoldable pub split_bytes : ℕ → Bytes → List Bytes
split_bytes sep [] = [] ∷ []
split_bytes sep (c ∷ s) =
    let rest = split_bytes sep s in if eqb c sep then [] ∷ rest else onto_head c rest

abbrev is_space : ℕ → Bool
is_space c = (leb 9 c && leb c 13) || eqb c 32

-- SkipSpace, which refuses the end of a line
skip_space : Bytes → Option Bytes
skip_space [] = some []
skip_space (c ∷ s) =
    let rest = skip_space s in if eqb c 10 then none else if is_space c then rest else some (c ∷ s)

abbrev is_digit : ℕ → Bool
is_digit c = leb b'0' c && leb c b'9'

-- The value of the digits that come first, after those read so far.
digits : ℕ → Bytes → ℕ × Bytes
digits n [] = (n, [])
digits n (c ∷ s) =
    let more = digits (n * 10 + (c - b'0')) s in if is_digit c then more else (n, c ∷ s)

-- A number below a bound
number : ℕ → Bytes → Option (ℕ × Bytes)
unfolding digits
number bound [] = none
number bound (c ∷ s) =
    let read = digits 0 (c ∷ s) in if is_digit c && ltb read.0 bound then some read else none

-- %d of an unsigned number of so many bits
scan_uint : ℕ → Bytes → Option (ℕ × Bytes)
unfolding skip_space number
scan_uint bits s = skip_space s >>= number (2 ^ bits)

abbrev after_sign : Bytes → Bool × Bytes
after_sign [] = (false, [])
after_sign (c ∷ s) =
    if eqb c b'-' then (true, s) else if eqb c b'+' then (false, s) else (false, c ∷ s)

-- %d of an int, as its sign and its absolute value
scan_int : Bytes → Option (Bool × ℕ)
unfolding skip_space number
scan_int s = do
  t ← skip_space s
  r ← number (2 ^ 63 + (if (after_sign t).0 then 1 else 0)) (after_sign t).1
  some ((after_sign t).0, r.0)

-- A literal of the format
literal : Bytes → Bytes → Option Bytes
literal [] s = some s
literal (c ∷ cs) [] = none
literal (c ∷ cs) (d ∷ s) = let rest = literal cs s in if eqb c d then rest else none

-- Sscanf(s, "v=%d", &version)
scan_version : Bytes → Option (Bool × ℕ)
unfolding literal scan_int
scan_version s = literal (bytes_of "v=") s >>= scan_int

-- Sscanf(s, "m=%d,t=%d,p=%d", &mem, &time, &threads)
scan_parameters : Bytes → Option (ℕ × ℕ × ℕ)
unfolding literal scan_uint
scan_parameters s = do
  s₁ ← literal (bytes_of "m=") s
  mem ← scan_uint 32 s₁
  s₂ ← literal (bytes_of ",t=") mem.1
  time ← scan_uint 32 s₂
  s₃ ← literal (bytes_of ",p=") time.1
  threads ← scan_uint 8 s₃
  some (mem.0, time.0, threads.0)

abbrev is_current : Bool × ℕ → Bool
is_current v = not v.0 && eqb v.1 argon_version

abbrev must : Bool → Option (Unit {0})
must b = if b then some tt else none

-- The parts after the method
check_parts : IdKey → Bytes → Bytes → Bytes → Bytes → Bytes → Option Bool
unfolding scan_version scan_parameters
check_parts id_key version parameters salt_text hash_text password = do
  v ← scan_version version
  _ ← must (is_current v)
  p ← scan_parameters parameters
  salt ← decode std salt_text
  want ← decode std hash_text
  some (bytes_equal (id_key password salt p.1 p.0 p.2 (length want)) want)

abbrev verify_parts : IdKey → Bytes → List Bytes → Option Bool
verify_parts id_key password [] = none
verify_parts id_key password (a ∷ []) = none
verify_parts id_key password (a ∷ b ∷ []) = none
verify_parts id_key password (a ∷ b ∷ c ∷ []) = none
verify_parts id_key password (a ∷ b ∷ c ∷ d ∷ []) = none
verify_parts id_key password (a ∷ b ∷ c ∷ d ∷ e ∷ []) = none
verify_parts id_key password (a ∷ method ∷ version ∷ parameters ∷ salt ∷ hash ∷ []) =
    if bytes_equal method (bytes_of "argon2id")
    then check_parts id_key version parameters salt hash password
    else none
verify_parts id_key password (a ∷ b ∷ c ∷ d ∷ e ∷ f ∷ g ∷ more) = none

-- VerifyPassword; `none` is ErrInvalidHash.
unfoldable pub verify_password : IdKey → Bytes → Bytes → Option Bool
unfolding split_bytes check_parts
verify_password id_key encoded password = verify_parts id_key password (split_bytes b'$' encoded)
