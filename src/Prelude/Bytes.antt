-- ===== src/Prelude/Bytes.antt =====
-- Byte strings as lists of numbers, compared as `bytes.Equal` does; dictionaries with such keys.
use Prim.Native.Nat.{ℕ}
use mathlib.Core.Path.{◌≡◌, refl, subst}
use mathlib.Core.Logic.{◌↔◌}
use mathlib.Core.Bool.{Bool, true, false, ◌&&◌}
use mathlib.Core.List.{List, [], ◌∷◌}
use mathlib.Core.Option.{Option, none, some}
use native.Mathlib.Omega.{arith}
use ssh_access.Prelude.Tests.{eqb, if◌then◌else◌}

abbrev pub Bytes : Type 0
Bytes = List ℕ

unfoldable pub bytes_equal : Bytes → Bytes → Bool
bytes_equal [] [] = true
bytes_equal [] (y ∷ ys) = false
bytes_equal (x ∷ xs) [] = false
bytes_equal (x ∷ xs) (y ∷ ys) = eqb x y && bytes_equal xs ys

eq_of_bytes_equal : (xs ys : Bytes) → bytes_equal xs ys ≡ true → xs ≡ ys
unfolding bytes_equal
eq_of_bytes_equal [] [] h = refl
eq_of_bytes_equal [] (y ∷ ys) h = cc
eq_of_bytes_equal (x ∷ xs) [] h = cc
eq_of_bytes_equal (x ∷ xs) (y ∷ ys) h = ground (arith, eq_of_bytes_equal xs ys)

pub bytes_equal_refl : (xs : Bytes) → bytes_equal xs xs ≡ true
unfolding bytes_equal
bytes_equal_refl [] = refl
bytes_equal_refl (x ∷ xs) = ground (arith, bytes_equal_refl xs)

pub bytes_equal_iff : (xs ys : Bytes) → (bytes_equal xs ys ≡ true) ↔ (xs ≡ ys)
bytes_equal_iff xs ys =
    (eq_of_bytes_equal xs ys, λ e. subst (λ zs. bytes_equal xs zs ≡ true) e (bytes_equal_refl xs))

-- A step that may fail.
infixl 5 ◌>>=◌
abbrev pub ◌>>=◌ : {A B : Type 0} → Option A → (A → Option B) → Option B
none >>= k = none
some a >>= k = k a

-- bytes.HasPrefix
unfoldable pub has_prefix : Bytes → Bytes → Bool
has_prefix xs [] = true
has_prefix [] (y ∷ ys) = false
has_prefix (x ∷ xs) (y ∷ ys) = eqb x y && has_prefix xs ys

module _ {ℓ} {V : Type ℓ} where
  unfoldable pub lookup_bytes : Bytes → List (Bytes × V) → Option V
  lookup_bytes k [] = none
  lookup_bytes k ((j, v) ∷ m) = if bytes_equal j k then some v else lookup_bytes k m

  unfoldable pub without_bytes : Bytes → List (Bytes × V) → List (Bytes × V)
  without_bytes k [] = []
  without_bytes k ((j, v) ∷ m) =
      let rest = without_bytes k m in if bytes_equal j k then rest else (j, v) ∷ rest

  pub lookup_bytes-without_bytes :
      (k j : Bytes) (m : List (Bytes × V))
      → lookup_bytes j (without_bytes k m) ≡ (if bytes_equal k j then none else lookup_bytes j m)
  unfolding lookup_bytes without_bytes
  lookup_bytes-without_bytes k j [] = ground arith
  lookup_bytes-without_bytes k j ((i, v) ∷ m) = ground (
    arith,
    lookup_bytes-without_bytes k j m,
    bytes_equal_iff i k,
    bytes_equal_iff i j,
    bytes_equal_iff k j,
  )
