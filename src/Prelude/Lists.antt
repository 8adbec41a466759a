-- ===== src/Prelude/Lists.antt =====
-- Lists measured by native numbers, predicates on lists by recursion, and slices of strings with
-- the Boolean membership test that the program uses (`slices.Contains`).
use Prim.Native.Nat.{ℕ, zero, suc, ◌+◌, ◌≤◌}
use Prim.Native.String.{String}
use mathlib.Core.Path.{◌≡◌, refl, subst, sym}
use mathlib.Core.Logic.{◌⊎◌, inl, inr}
use mathlib.Core.Bool.{Bool, true, false, ◌&&◌, ◌||◌}
use mathlib.Core.List.{List, [], ◌∷◌, ◌++◌, map}
use native.Mathlib.Omega.{arith}
use mathlib.Core.Option.{Option, none, some}
use text.Mathlib.Text.{◌==◌}
use text.Mathlib.TextEquality.{eq_iff}
use ssh_access.Prelude.Tests.{if◌then◌else◌, if_elim, Bool-cases}

module _ {ℓ} {A : Type ℓ} where
  abbrev pub length : List A → ℕ
  length [] = 0
  length (x ∷ xs) = suc (length xs)

  abbrev pub is_empty : List A → Bool
  is_empty [] = true
  is_empty (x ∷ xs) = false

  abbrev pub filter : (A → Bool) → List A → List A
  filter p [] = []
  filter p (x ∷ xs) = if p x then x ∷ filter p xs else filter p xs

  abbrev pub all : (A → Bool) → List A → Bool
  all p [] = true
  all p (x ∷ xs) = p x && all p xs

  abbrev pub any : (A → Bool) → List A → Bool
  any p [] = false
  any p (x ∷ xs) = p x || any p xs

  pub length-append : (xs ys : List A) → length (xs ++ ys) ≡ length xs + length ys
  length-append [] ys = omega arith
  length-append (x ∷ xs) ys = omega (arith, length-append xs ys)

  pub length-filter-le : (p : A → Bool) (xs : List A) → length (filter p xs) ≤ length xs
  length-filter-le p [] = omega arith
  length-filter-le p (x ∷ xs) = ground (arith, length-filter-le p xs)

  abbrev pub take : ℕ → List A → List A
  take zero xs = []
  take (suc n) [] = []
  take (suc n) (x ∷ xs) = x ∷ take n xs

  abbrev pub drop : ℕ → List A → List A
  drop zero xs = xs
  drop (suc n) [] = []
  drop (suc n) (x ∷ xs) = drop n xs

  pub take-append : (xs ys : List A) → take (length xs) (xs ++ ys) ≡ xs
  take-append [] ys = refl
  take-append (x ∷ xs) ys = ground (arith, take-append xs ys)

  pub drop-append : (xs ys : List A) → drop (length xs) (xs ++ ys) ≡ ys
  drop-append [] ys = refl
  drop-append (x ∷ xs) ys = drop-append xs ys

  -- The first element that passes a test.
  abbrev pub find : (A → Bool) → List A → Option A
  find p [] = none
  find p (x ∷ xs) = let rest = find p xs in if p x then some x else rest

pub differs : {b : Bool} → b ≡ true → b ≡ false → ⊥
differs h k = cc

abbrev pub All {ℓ κ} : {A : Type ℓ} → (A → Type κ) → List A → Type κ
All P [] = Unit
All P (x ∷ xs) = P x × All P xs

abbrev pub Exists {ℓ} : {A : Type ℓ} → (A → Type 0) → List A → Type 0
Exists P [] = ⊥
Exists P (x ∷ xs) = P x ⊎ Exists P xs

module _ {ℓ κ} {A : Type ℓ} (P : A → Type κ) where
  pub All-mono : (Q : A → Type κ) → ((x : A) → P x → Q x) → (xs : List A) → All P xs → All Q xs
  All-mono Q h [] a = tt
  All-mono Q h (x ∷ xs) (p, a) = (h x p, All-mono Q h xs a)

  pub All-both :
      (Q R : A → Type κ)
      → ((x : A) → P x → Q x → R x)
      → (xs : List A) → All P xs
      → All Q xs
      → All R xs
  All-both Q R h [] a b = tt
  All-both Q R h (x ∷ xs) (p, a) (q, b) = (h x p q, All-both Q R h xs a b)

  pub All-map :
      {B : Type ℓ} (Q : B → Type κ) (f : A → B)
      → ((x : A) → P x → Q (f x))
      → (xs : List A) → All P xs
      → All Q (map f xs)
  All-map Q f h [] a = tt
  All-map Q f h (x ∷ xs) (p, a) = (h x p, All-map Q f h xs a)

  pub All-append : (xs ys : List A) → All P xs → All P ys → All P (xs ++ ys)
  All-append [] ys a b = b
  All-append (x ∷ xs) ys (p, a) b = (p, All-append xs ys a b)

  pub All-filter : (q : A → Bool) (xs : List A) → All P xs → All P (filter q xs)
  All-filter q [] a = tt
  All-filter q (x ∷ xs) (p, a) =
      let rest = All-filter q xs a in if_elim (All P) (q x) (λ e. (p, rest)) (λ e. rest)

  pub find-All :
      (q : A → Bool) (xs : List A) (x : A) → All P xs → find q xs ≡ some x → P x × (q x ≡ true)
  find-All q [] x a h = absurd (ground arith)
  find-All q (y ∷ ys) x (p, a) h = elim (Bool-cases (q y)) [
    | inl e ↦ let same : y ≡ x = ground arith in (subst P same p, subst (λ z. q z ≡ true) same e)
    | inr e ↦ find-All q ys x a (ground arith)
  ]

-- An element that passes a test makes `any` true.
pub any-All {ℓ} :
    {A : Type ℓ} (xs : List A) → All (λ x. (p : A → Bool) → p x ≡ true → any p xs ≡ true) xs
any-All [] = tt
any-All (x ∷ xs) =
    (λ p h. ground arith, All-mono _ _ (λ y k p h. ground (arith, k p h)) xs (any-All xs))

-- What `find` returns is there and passes the test.
pub find-Exists :
    {A : Type 0} (q : A → Bool) (xs : List A) (x : A)
    → find q xs ≡ some x
    → Exists (λ y. (y ≡ x) × (q y ≡ true)) xs
find-Exists q [] x h = absurd (ground arith)
find-Exists q (y ∷ ys) x h = elim (Bool-cases (q y)) [
  | inl e ↦ inl (ground arith, e)
  | inr e ↦ inr (find-Exists q ys x (ground arith))
]

pub Exists-mono :
    {A : Type 0} (P Q : A → Type 0)
    → ((x : A) → P x → Q x)
    → (xs : List A) → Exists P xs
    → Exists Q xs
Exists-mono P Q h [] e = elim e [ ]
Exists-mono P Q h (x ∷ xs) (inl p) = inl (h x p)
Exists-mono P Q h (x ∷ xs) (inr e) = inr (Exists-mono P Q h xs e)

pub Exists-elim :
    {A : Type 0} {R : Type 0} (P : A → Type 0) (xs : List A) → ((x : A) → P x → R) → Exists P xs → R
Exists-elim P [] h e = absurd e
Exists-elim P (x ∷ xs) h (inl p) = h x p
Exists-elim P (x ∷ xs) h (inr e) = Exists-elim P xs h e

pub All-Exists :
    {A : Type 0} (P Q : A → Type 0) (xs : List A) → All P xs → Exists Q xs → (x : A) × P x × Q x
All-Exists P Q [] a e = elim e [ ]
All-Exists P Q (x ∷ xs) a (inl q) = (x, a.0, q)
All-Exists P Q (x ∷ xs) a (inr e) = All-Exists P Q xs a.1 e

-- No two elements have one key.
abbrev pub DistinctOn : {A : Type 0} → (A → String) → List A → Type 0
DistinctOn key [] = Unit
DistinctOn key (x ∷ xs) = (any (λ y. key y == key x) xs ≡ false) × DistinctOn key xs

pub any_of_Exists :
    {A : Type 0} (q : A → Bool) (P : A → Type 0)
    → ((x : A) → P x → q x ≡ true)
    → (xs : List A) → Exists P xs
    → any q xs ≡ true
any_of_Exists q P h [] e = elim e [ ]
any_of_Exists q P h (x ∷ xs) (inl p) = ground (arith, h x p)
any_of_Exists q P h (x ∷ xs) (inr e) = ground (arith, any_of_Exists q P h xs e)

-- Where no two elements have one key, `find` finds the one with the key.
pub find_of_Exists :
    {A : Type 0} (key : A → String) (k : String) (P : A → Type 0) (xs : List A)
    → DistinctOn key xs
    → Exists (λ x. (key x ≡ k) × P x) xs
    → (x : A) × (find (λ y. key y == k) xs ≡ some x) × P x
find_of_Exists key k P [] d e = elim e [ ]
find_of_Exists key k P (x ∷ xs) d (inl (e, p)) = (x, ground (arith, eq_iff (key x) k), p)
find_of_Exists key k P (x ∷ xs) d (inr e) =
    let (y, found, p) = find_of_Exists key k P xs d.1 e in
    let later = any_of_Exists (λ y. key y == k) _ (λ y h. (eq_iff (key y) k).1 h.0) xs e in
    (
      y,
      (elim (Bool-cases (key x == k)) [
        | inl same ↦ absurd (
            differs
              (subst (λ z. any (λ y. key y == z) xs ≡ true) (sym ((eq_iff (key x) k).0 same)) later)
              d.0)
        | inr e ↦ ground arith
      ]),
      p,
    )

pub eq_swap : (a b : String) → (a == b) ≡ (b == a)
eq_swap a b = ground (arith, eq_iff a b, eq_iff b a)

-- slices.Contains
unfoldable pub contains : List String → String → Bool
contains [] a = false
contains (x ∷ xs) a = x == a || contains xs a

pub contains-append :
    (xs ys : List String) (a : String) → contains (xs ++ ys) a ≡ (contains xs a || contains ys a)
unfolding contains
contains-append [] ys a = refl
contains-append (x ∷ xs) ys a = ground (arith, contains-append xs ys a)

-- No entry occurs twice.
abbrev pub Distinct : List String → Type 0
Distinct [] = Unit
Distinct (x ∷ xs) = (contains xs x ≡ false) × Distinct xs

-- A Go map with string keys, as the list of its pairs.
module _ {ℓ} {V : Type ℓ} where
  unfoldable pub lookup : String → List (String × V) → Option V
  lookup k [] = none
  lookup k ((j, v) ∷ m) = if j == k then some v else lookup k m

  -- delete(m, k)
  unfoldable pub without : String → List (String × V) → List (String × V)
  without k [] = []
  without k ((j, v) ∷ m) = let rest = without k m in if j == k then rest else (j, v) ∷ rest

  -- m[k] = v
  unfoldable pub put : String → V → List (String × V) → List (String × V)
  unfolding without
  put k v m = (k, v) ∷ without k m

  pub lookup-without :
      (k j : String) (m : List (String × V))
      → lookup j (without k m) ≡ (if k == j then none else lookup j m)
  unfolding lookup without
  lookup-without k j [] = ground arith
  lookup-without k j ((i, v) ∷ m) =
      ground (arith, lookup-without k j m, eq_iff i k, eq_iff i j, eq_iff k j)

  pub lookup-put :
      (k j : String) (v : V) (m : List (String × V))
      → lookup j (put k v m) ≡ (if k == j then some v else lookup j m)
  unfolding lookup put
  lookup-put k j v m = ground (arith, lookup-without k j m)

-- Where `find` finds nothing, no element passes the test.
pub find-any : {A : Type 0} (p : A → Bool) (xs : List A) → find p xs ≡ none → any p xs ≡ false
find-any p [] h = refl
find-any p (x ∷ xs) h = ground (arith, find-any p xs)
