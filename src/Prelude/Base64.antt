-- ===== src/Prelude/Base64.antt =====
-- encoding/base64 without padding: RawStdEncoding and RawURLEncoding, over lists of bytes.
use Prim.Native.Nat.{ℕ, ◌+◌, ◌-◌, ◌*◌, ◌/◌, ◌%◌, ◌<◌}
use mathlib.Core.Path.{◌≡◌, refl}
use mathlib.Core.Bool.{Bool, false, ◌&&◌, ◌||◌, not}
use mathlib.Core.List.{[], ◌∷◌, ◌++◌}
use mathlib.Core.Option.{Option, none, some}
use native.Mathlib.Omega.{arith}
use ssh_access.Prelude.Tests.{ltb, leb, eqb, if◌then◌else◌}
use ssh_access.Prelude.Lists.{All, filter}
use ssh_access.Prelude.Bytes.{Bytes, ◌>>=◌}

-- The alphabets of RawStdEncoding and RawURLEncoding.
pub data Alphabet : Type 0 where
  std : Alphabet
  url : Alphabet

abbrev digit_62 : Alphabet → ℕ
digit_62 std = b'+'
digit_62 url = b'-'

abbrev digit_63 : Alphabet → ℕ
digit_63 std = b'/'
digit_63 url = b'_'

digit_char : Alphabet → ℕ → ℕ
digit_char a d =
    if ltb d 26
    then d + 65
    else if ltb d 52
    then d + 71
    else if ltb d 62
    then d - 4
    else if eqb d 62
    then digit_62 a
    else digit_63 a

char_digit : Alphabet → ℕ → Option ℕ
char_digit a c =
    if leb 65 c && leb c 90
    then some (c - 65)
    else if leb 97 c && leb c 122
    then some (c - 71)
    else if leb 48 c && leb c 57
    then some (c + 4)
    else if eqb c (digit_62 a)
    then some 62
    else if eqb c (digit_63 a)
    then some 63
    else none

-- EncodeToString
unfoldable pub encode : Alphabet → Bytes → Bytes
unfolding digit_char
encode al [] = []
encode al (a ∷ []) = digit_char al (a / 4) ∷ digit_char al (a % 4 * 16) ∷ []
encode al (a ∷ b ∷ []) =
    digit_char al (a / 4) ∷ digit_char al (a % 4 * 16 + b / 16) ∷ digit_char al (b % 16 * 4) ∷ []
encode al (a ∷ b ∷ c ∷ rest) =
    digit_char al (a / 4)
    ∷ digit_char al (a % 4 * 16 + b / 16)
    ∷ digit_char al (b % 16 * 4 + c / 64)
    ∷ digit_char al (c % 64)
    ∷ encode al rest

abbrev onto : Bytes → Option Bytes → Option Bytes
onto front none = none
onto front (some rest) = some (front ++ rest)

abbrev first_byte : ℕ → ℕ → ℕ
first_byte p q = p * 4 + q / 16

abbrev second_byte : ℕ → ℕ → ℕ
second_byte q r = q % 16 * 16 + r / 4

-- The groups of four digits; the bits that are left over at the end are not looked at.
quanta : Alphabet → Bytes → Option Bytes
unfolding char_digit
quanta al [] = some []
quanta al (w ∷ []) = none
quanta al (w ∷ x ∷ []) = do p ← char_digit al w; q ← char_digit al x; some (first_byte p q ∷ [])
quanta al (w ∷ x ∷ y ∷ []) = do
  p ← char_digit al w
  q ← char_digit al x
  r ← char_digit al y
  some (first_byte p q ∷ second_byte q r ∷ [])
quanta al (w ∷ x ∷ y ∷ z ∷ rest) =
    let later = quanta al rest in
    do
      p ← char_digit al w
      q ← char_digit al x
      r ← char_digit al y
      s ← char_digit al z
      onto (first_byte p q ∷ second_byte q r ∷ (r % 4 * 64 + s) ∷ []) later

abbrev is_newline : ℕ → Bool
is_newline c = eqb c 10 || eqb c 13

-- DecodeString, which skips the ends of lines; `none` is a CorruptInputError.
unfoldable pub decode : Alphabet → Bytes → Option Bytes
unfolding quanta
decode al s = quanta al (filter (λ c. not (is_newline c)) s)

abbrev pub IsByte : ℕ → Type 0
IsByte b = b < 256

char_digit-digit_char : (al : Alphabet) (d : ℕ) → d < 64 → char_digit al (digit_char al d) ≡ some d
unfolding char_digit digit_char
char_digit-digit_char std d h = ground arith
char_digit-digit_char url d h = ground arith

digit_char-printable : (al : Alphabet) (d : ℕ) → d < 64 → is_newline (digit_char al d) ≡ false
unfolding digit_char
digit_char-printable std d h = ground arith
digit_char-printable url d h = ground arith

abbrev printable : Bytes → Bytes
printable s = filter (λ c. not (is_newline c)) s

printable-encode :
    (al : Alphabet) (b : Bytes) → All IsByte b → printable (encode al b) ≡ encode al b
unfolding encode
printable-encode al [] h = refl
printable-encode al (a ∷ []) (ha, _) =
    ground (arith, digit_char-printable al (a / 4), digit_char-printable al (a % 4 * 16))
printable-encode al (a ∷ b ∷ []) (ha, (hb, _)) = ground (
  arith,
  digit_char-printable al (a / 4),
  digit_char-printable al (a % 4 * 16 + b / 16),
  digit_char-printable al (b % 16 * 4),
)
printable-encode al (a ∷ b ∷ c ∷ rest) (ha, (hb, (hc, hs))) = ground (
  arith,
  digit_char-printable al (a / 4),
  digit_char-printable al (a % 4 * 16 + b / 16),
  digit_char-printable al (b % 16 * 4 + c / 64),
  digit_char-printable al (c % 64),
  printable-encode al rest hs,
)

quanta-encode : (al : Alphabet) (b : Bytes) → All IsByte b → quanta al (encode al b) ≡ some b
unfolding encode quanta
quanta-encode al [] h = refl
quanta-encode al (a ∷ []) (ha, _) =
    rw
      (
        char_digit-digit_char al (a / 4) (omega arith),
        char_digit-digit_char al (a % 4 * 16) (omega arith),
      )
      (ground arith)
quanta-encode al (a ∷ b ∷ []) (ha, (hb, _)) =
    rw
      (
        char_digit-digit_char al (a / 4) (omega arith),
        char_digit-digit_char al (a % 4 * 16 + b / 16) (omega arith),
        char_digit-digit_char al (b % 16 * 4) (omega arith),
      )
      (ground arith)
quanta-encode al (a ∷ b ∷ c ∷ rest) (ha, (hb, (hc, hs))) =
    rw
      (
        quanta-encode al rest hs,
        char_digit-digit_char al (a / 4) (omega arith),
        char_digit-digit_char al (a % 4 * 16 + b / 16) (omega arith),
        char_digit-digit_char al (b % 16 * 4 + c / 64) (omega arith),
        char_digit-digit_char al (c % 64) (omega arith),
      )
      (ground arith)

-- What is encoded is decoded again.
pub decode-encode : (al : Alphabet) (b : Bytes) → All IsByte b → decode al (encode al b) ≡ some b
unfolding decode
decode-encode al b h = rw (printable-encode al b h) (quanta-encode al b h)

-- What holds of the digits holds of the text.
encode-All :
    (al : Alphabet) (P : ℕ → Type 0) (b : Bytes)
    → ((d : ℕ) → d < 64 → P (digit_char al d))
    → All IsByte b
    → All P (encode al b)
unfolding encode
encode-All al P [] p h = tt
encode-All al P (a ∷ []) p (ha, _) = (p (a / 4) (omega arith), (p (a % 4 * 16) (omega arith), tt))
encode-All al P (a ∷ b ∷ []) p (ha, (hb, _)) = (
  p (a / 4) (omega arith),
  (p (a % 4 * 16 + b / 16) (omega arith), (p (b % 16 * 4) (omega arith), tt)),
)
encode-All al P (a ∷ b ∷ c ∷ rest) p (ha, (hb, (hc, hs))) = (
  p (a / 4) (omega arith),
  (
    p (a % 4 * 16 + b / 16) (omega arith),
    (p (b % 16 * 4 + c / 64) (omega arith), (p (c % 64) (omega arith), encode-All al P rest p hs)),
  ),
)

digit_char-ne : (al : Alphabet) (d : ℕ) → d < 64 → eqb (digit_char al d) b'$' ≡ false
unfolding digit_char
digit_char-ne std d h = ground arith
digit_char-ne url d h = ground arith

-- No dollar sign is in an encoding.
pub encode-no_dollar :
    (al : Alphabet) (b : Bytes) → All IsByte b → All (λ c. eqb c b'$' ≡ false) (encode al b)
encode-no_dollar al b h = encode-All al (λ c. eqb c b'$' ≡ false) b (digit_char-ne al) h
