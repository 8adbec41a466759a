-- ===== src/Store/Audit/Encoding.antt =====
-- internal/store/audit.go: the length-prefixed encoding of the hashed fields can be read in one way only.
use mathlib.Core.Path.{ap₂}
use ssh_access.Prelude.{ℕ, ◌/◌, ◌%◌, ◌^◌, ◌<◌, ◌≡◌, refl, List, [], ◌∷◌, ◌++◌, arith, length, All}
use ssh_access.Prelude.Bytes.{Bytes}
use ssh_access.Store.Audit.{put_uint64, write_field, write_fields}

abbrev pub IsShort : Bytes → Type 0
IsShort b = length b < 2 ^ 64

-- A length is determined by its eight bytes.
bytes_of_eq :
    (a b c d e f g h a' b' c' d' e' f' g' h' : ℕ) (xs ys : Bytes)
    → (a ∷ b ∷ c ∷ d ∷ e ∷ f ∷ g ∷ h ∷ []) ++ xs
      ≡ (a' ∷ b' ∷ c' ∷ d' ∷ e' ∷ f' ∷ g' ∷ h' ∷ []) ++ ys
    → (a ≡ a')
      × (b ≡ b')
      × (c ≡ c')
      × (d ≡ d')
      × (e ≡ e')
      × (f ≡ f')
      × (g ≡ g')
      × (h ≡ h')
      × (xs ≡ ys)
bytes_of_eq a b c d e f g h a' b' c' d' e' f' g' h' xs ys p = (cc, cc, cc, cc, cc, cc, cc, cc, cc)

digits_eq :
    (m n : ℕ)
    → m < 2 ^ 64
    → n < 2 ^ 64
    → m / 2 ^ 56 % 256 ≡ n / 2 ^ 56 % 256
    → m / 2 ^ 48 % 256 ≡ n / 2 ^ 48 % 256
    → m / 2 ^ 40 % 256 ≡ n / 2 ^ 40 % 256
    → m / 2 ^ 32 % 256 ≡ n / 2 ^ 32 % 256
    → m / 2 ^ 24 % 256 ≡ n / 2 ^ 24 % 256
    → m / 2 ^ 16 % 256 ≡ n / 2 ^ 16 % 256
    → m / 2 ^ 8 % 256 ≡ n / 2 ^ 8 % 256
    → m % 256 ≡ n % 256
    → m ≡ n
digits_eq m n hm hn e₇ e₆ e₅ e₄ e₃ e₂ e₁ e₀ = omega arith

-- Two texts of one length in front of others are told apart from these.
append_inj :
    (us bs xs ys : Bytes) → length us ≡ length bs → us ++ xs ≡ bs ++ ys → (us ≡ bs) × (xs ≡ ys)
append_inj [] [] xs ys h e = (refl, e)
append_inj [] (b ∷ bs) xs ys h e = absurd (omega arith)
append_inj (a ∷ us) [] xs ys h e = absurd (omega arith)
append_inj (a ∷ us) (b ∷ bs) xs ys h e = ground (arith, append_inj us bs xs ys)

write_field_inj :
    (a b xs ys : Bytes)
    → IsShort a
    → IsShort b
    → write_field a ++ xs ≡ write_field b ++ ys
    → (a ≡ b) × (xs ≡ ys)
unfolding write_field put_uint64
write_field_inj a b xs ys ha hb e =
    let (e₇, e₆, e₅, e₄, e₃, e₂, e₁, e₀, rest) =
      bytes_of_eq _ _ _ _ _ _ _ _ _ _ _ _ _ _ _ _ _ _ e in
    append_inj a b xs ys (digits_eq (length a) (length b) ha hb e₇ e₆ e₅ e₄ e₃ e₂ e₁ e₀) rest

-- Two lists of as many fields, each shorter than 2^64 bytes, with one encoding are equal.
pub write_fields_inj :
    (xs ys : List Bytes)
    → length xs ≡ length ys
    → All IsShort xs
    → All IsShort ys
    → write_fields xs ≡ write_fields ys
    → xs ≡ ys
unfolding write_fields
write_fields_inj [] [] h hx hy e = refl
write_fields_inj [] (y ∷ ys) h hx hy e = absurd (omega arith)
write_fields_inj (x ∷ xs) [] h hx hy e = absurd (omega arith)
write_fields_inj (x ∷ xs) (y ∷ ys) h hx hy e =
    let (first, rest) = write_field_inj x y (write_fields xs) (write_fields ys) hx.0 hy.0 e in
    ap₂ (λ a b. a ∷ b) first (write_fields_inj xs ys (omega arith) hx.1 hy.1 rest)
