-- ===== src/Prelude/Strings.antt =====
-- The functions of Go's `strings` that the program calls, over native strings. The separators are
-- ASCII, so that the code points walked here and Go's bytes are cut at the same places.
use Prim.Native.Nat.{ℕ}
use Prim.Native.Char.{Char, code}
use Prim.Native.String
use Prim.Native.String.{String}
use mathlib.Core.Path.{◌≡◌, refl}
use mathlib.Core.Bool.{Bool, false, ◌||◌, ◌&&◌}
use mathlib.Core.List.{List, [], ◌∷◌}
use mathlib.Core.Option.{Option, none, some}
use text.Mathlib.Text.{◌==◌}
use ssh_access.Prelude.Tests.{eqb, leb, if◌then◌else◌}

infixl 66 ◌+++◌
abbrev pub ◌+++◌ : String → String → String
s +++ t = String.◌++◌ s t

abbrev prepend : Char → String × String → String × String
prepend c (a, b) = (String.◌∷◌ c a, b)

-- strings.Cut at a byte; `none` where the separator is not found
unfoldable pub cut : ℕ → String → Option (String × String)
cut sep String.[] = none
cut sep (String.◌∷◌ c s) =
    let rest = cut sep s in
    if eqb (code c) sep
    then some ("", s)
    else (elim rest [ none ↦ none | some p ↦ some (prepend c p) ])

abbrev onto_head : Char → List String → List String
onto_head c [] = []
onto_head c (w ∷ ws) = String.◌∷◌ c w ∷ ws

-- strings.Split at a byte
unfoldable pub split : ℕ → String → List String
split sep String.[] = "" ∷ []
split sep (String.◌∷◌ c s) =
    let rest = split sep s in if eqb (code c) sep then "" ∷ rest else onto_head c rest

-- unicode.IsSpace
abbrev is_space : Char → Bool
is_space c =
    (leb 9 (code c) && leb (code c) 13)
    || eqb (code c) 0x20
    || eqb (code c) 0x85
    || eqb (code c) 0xa0
    || eqb (code c) 0x1680
    || (leb 0x2000 (code c) && leb (code c) 0x200a)
    || eqb (code c) 0x2028
    || eqb (code c) 0x2029
    || eqb (code c) 0x202f
    || eqb (code c) 0x205f
    || eqb (code c) 0x3000

trim_left : String → String
trim_left String.[] = ""
trim_left (String.◌∷◌ c s) = let rest = trim_left s in if is_space c then rest else String.◌∷◌ c s

trim_right : String → String
trim_right String.[] = ""
trim_right (String.◌∷◌ c s) =
    let rest = trim_right s in if is_space c && rest == "" then "" else String.◌∷◌ c rest

unfoldable pub trim_space : String → String
unfolding trim_left trim_right
trim_space s = trim_right (trim_left s)

-- strings.HasSuffix
unfoldable pub has_suffix : String → String → Bool
has_suffix String.[] t = "" == t
has_suffix (String.◌∷◌ c s) t = String.◌∷◌ c s == t || has_suffix s t

-- strings.TrimRight and strings.TrimLeft with a one-byte cutset
unfoldable pub trim_right_byte : ℕ → String → String
trim_right_byte b String.[] = ""
trim_right_byte b (String.◌∷◌ c s) =
    let rest = trim_right_byte b s in if eqb (code c) b && rest == "" then "" else String.◌∷◌ c rest

unfoldable pub trim_left_byte : ℕ → String → String
trim_left_byte b String.[] = ""
trim_left_byte b (String.◌∷◌ c s) =
    let rest = trim_left_byte b s in if eqb (code c) b then rest else String.◌∷◌ c s

-- No code point of the text is the byte.
abbrev pub Without : ℕ → String → Type 0
Without b String.[] = Unit
Without b (String.◌∷◌ c s) = (eqb (code c) b ≡ false) × Without b s

cut_test : cut b'+' "ec2-user+web+01" ≡ some ("ec2-user", "web+01")
unfolding cut
cut_test = refl

split_test : split b',' "a,,b" ≡ "a" ∷ "" ∷ "b" ∷ []
unfolding split
split_test = refl

trim_test : trim_space "  a b \n" ≡ "a b"
unfolding trim_space
trim_test = refl
