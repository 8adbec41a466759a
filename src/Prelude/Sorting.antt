-- ===== src/Prelude/Sorting.antt =====
-- sort.Strings. The order is total and two equal strings cannot be told apart, so that every sorting
-- routine returns the list that insertion sort returns.
use Prim.Native.String.compare
use Prim.Native.String.{String, compare}
use mathlib.Core.Path.{◌≡◌, refl}
use mathlib.Core.Bool.{Bool, true, false, ◌||◌}
use mathlib.Core.List.{List, [], ◌∷◌}
use native.Mathlib.Omega.{arith}
use text.Mathlib.Text.{◌==◌, is_le}
use text.Mathlib.TextEquality.{eq_iff}
use ssh_access.Prelude.Tests.{if◌then◌else◌}
use ssh_access.Prelude.Lists.{contains, Distinct}

abbrev pub str_leb : String → String → Bool
str_leb s t = is_le (compare s t)

str_leb_total : (s t : String) → str_leb s t ≡ false → str_leb t s ≡ true
str_leb_total String.[] String.[] h = refl
str_leb_total String.[] (String.◌∷◌ d t) h = ground (arith, compare.nil-cons d t)
str_leb_total (String.◌∷◌ c s) String.[] h = ground (arith, compare.nil-cons c s)
str_leb_total (String.◌∷◌ c s) (String.◌∷◌ d t) h =
    ground (arith, str_leb_total s t, compare.cons-cons c d s t, compare.cons-cons d c t s)

insert : String → List String → List String
insert a [] = a ∷ []
insert a (x ∷ xs) = if str_leb a x then a ∷ x ∷ xs else x ∷ insert a xs

unfoldable pub sort : List String → List String
unfolding insert
sort [] = []
sort (x ∷ xs) = insert x (sort xs)

contains-insert :
    (a : String) (xs : List String) (b : String)
    → contains (insert a xs) b ≡ (a == b || contains xs b)
unfolding insert contains
contains-insert a [] b = refl
contains-insert a (x ∷ xs) b = ground (arith, contains-insert a xs b)

-- Sorting keeps the entries.
pub contains-sort : (xs : List String) (b : String) → contains (sort xs) b ≡ contains xs b
unfolding sort contains
contains-sort [] b = refl
contains-sort (x ∷ xs) b = ground (arith, contains-insert x (sort xs) b, contains-sort xs b)

Distinct-insert :
    (a : String) (xs : List String) → contains xs a ≡ false → Distinct xs → Distinct (insert a xs)
unfolding insert contains
Distinct-insert a [] h d = (refl, tt)
Distinct-insert a (x ∷ xs) h d =
    ground (arith, contains-insert a xs x, Distinct-insert a xs, eq_iff x a, eq_iff a x)

pub Distinct-sort : (xs : List String) → Distinct xs → Distinct (sort xs)
unfolding sort
Distinct-sort [] d = tt
Distinct-sort (x ∷ xs) d =
    ground (arith, Distinct-insert x (sort xs), contains-sort xs x, Distinct-sort xs)

abbrev pub Sorted : List String → Type 0
Sorted [] = Unit
Sorted (x ∷ []) = Unit
Sorted (x ∷ y ∷ ys) = (str_leb x y ≡ true) × Sorted (y ∷ ys)

Sorted-insert : (a : String) (xs : List String) → Sorted xs → Sorted (insert a xs)
unfolding insert
Sorted-insert a [] h = tt
Sorted-insert a (x ∷ []) h = ground (arith, str_leb_total a x)
Sorted-insert a (x ∷ y ∷ ys) h = ground (arith, str_leb_total a x, Sorted-insert a (y ∷ ys))

pub Sorted-sort : (xs : List String) → Sorted (sort xs)
unfolding sort
Sorted-sort [] = tt
Sorted-sort (x ∷ xs) = Sorted-insert x (sort xs) (Sorted-sort xs)
