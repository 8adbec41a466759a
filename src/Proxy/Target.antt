-- ===== src/Proxy/Target.antt =====
-- internal/proxy/authz.go, ParseTarget: the SSH user name as a target.
use Prim.Native.Char.{Char, char, code}
use Prim.Native.String.compare
use text.Mathlib.TextLemmas.{nil-append, cons-append, append_assoc}
use text.Mathlib.TextEquality.{codes_equal}
use mathlib.Core.Path.{subst, ap₂}
use ssh_access.Prelude.{
  ℕ, String, ◌≡◌, refl, sym, ap, ◌∙◌, ◌≢◌, true, false, none, some, arith, ◌==◌, eq_iff, eqb, cut,
  ◌+++◌, Without, if◌then◌else◌, Bool-cases, Option-cases, inl, inr, ◌⊎◌, ◌↔◌,
}
use ssh_access.Proxy.Types.{TargetSpec}

abbrev pub target_separator : ℕ
target_separator = b'+'

pub data TargetError : Type 0 where
  empty_target_host missing_host : TargetError

pub data Parsed : Type 0 where
  ok : TargetSpec → Parsed
  err : TargetError → Parsed

abbrev spec_of : String → String → Parsed
spec_of login host =
    if host == "" then err missing_host else ok (record { requested_login = login; host = host })

unfoldable pub parse_target : String → Parsed
unfolding cut
parse_target user =
    if user == "" then err empty_target_host else (elim (cut target_separator user) [
      | none ↦ ok (record { requested_login = ""; host = user })
      | some (login, host) ↦ spec_of login host
    ])

-- `Cut` finds the first separator: the text before it has none.
cut-join :
    (sep : ℕ) (a : String) (c : Char) (b : String)
    → Without sep a
    → eqb (code c) sep ≡ true
    → cut sep (a +++ (String.◌∷◌ c b)) ≡ some (a, b)
unfolding cut
cut-join sep String.[] c b w h = rw nil-append (ground arith)
cut-join sep (String.◌∷◌ d a) c b w h = rw cons-append (ground (arith, cut-join sep a c b w.1 h))

cut-Without : (sep : ℕ) (s : String) → Without sep s → cut sep s ≡ none
unfolding cut
cut-Without sep String.[] w = refl
cut-Without sep (String.◌∷◌ c s) w = ground (arith, cut-Without sep s w.1)

-- What `Cut` returns is the text split at a separator, with none before it.
cut_sound :
    (sep : ℕ) (s a b : String)
    → cut sep s ≡ some (a, b)
    → Without sep a × ((c : Char) × (eqb (code c) sep ≡ true) × (s ≡ a +++ (String.◌∷◌ c b)))
unfolding cut
cut_sound sep String.[] a b h = absurd (ground arith)
cut_sound sep (String.◌∷◌ c s) a b h = elim (Bool-cases (eqb (code c) sep)) [
  | inl e ↦ found e (ground arith) (ground arith)
  | inr e ↦ elim (Option-cases (cut sep s)) [
    | inl e' ↦ absurd (ground arith)
    | inr (p, e') ↦ later e p e' (cut_sound sep s p.0 p.1) (ground arith) (ground arith)
  ]
]
  where
    found :
        eqb (code c) sep ≡ true
        → "" ≡ a
        → s ≡ b
        → Without sep a
          × ((d : Char) × (eqb (code d) sep ≡ true) × (String.◌∷◌ c s ≡ a +++ (String.◌∷◌ d b)))
    found e p q = rw (← p, ← q) (tt, (c, e, sym (nil-append (String.◌∷◌ c s))))

    later :
        eqb (code c) sep ≡ false
        → (p : String × String) → cut sep s ≡ some p
        → (cut sep s ≡ some p
            → Without sep p.0
              × ((d : Char) × (eqb (code d) sep ≡ true) × (s ≡ p.0 +++ (String.◌∷◌ d p.1))))
        → String.◌∷◌ c p.0 ≡ a
        → p.1 ≡ b
        → Without sep a
          × ((d : Char) × (eqb (code d) sep ≡ true) × (String.◌∷◌ c s ≡ a +++ (String.◌∷◌ d b)))
    later e p e' ih q r =
        let (w, (d, sep_d, eq)) = ih e' in
        rw (← q, ← r)
          ((e, w), (d, sep_d, ap (String.◌∷◌ c) eq ∙ sym (cons-append c p.0 (String.◌∷◌ d p.1))))

abbrev plus : Char
plus = char 43 tt

plus_text : (a b : String) → a +++ (String.◌∷◌ plus b) ≡ a +++ "+" +++ b
plus_text a b = sym (
    append_assoc a "+" b
    ∙ ap (λ t. a +++ t) (cons-append plus "" b ∙ ap (String.◌∷◌ plus) (nil-append b)))

Without-of_cut : (sep : ℕ) (s : String) → cut sep s ≡ none → Without sep s
unfolding cut
Without-of_cut sep String.[] h = tt
Without-of_cut sep (String.◌∷◌ c s) h = ground (arith, Without-of_cut sep s)

-- The two accepted forms.
abbrev pub Names : String → TargetSpec → Type 0
Names user spec =
    (Without target_separator user × (spec.requested_login ≡ "") × (spec.host ≡ user))
    ⊎ (Without target_separator spec.requested_login
        × (user ≡ spec.requested_login +++ "+" +++ spec.host))

parse_target-Names :
    (user : String) (spec : TargetSpec)
    → parse_target user ≡ ok spec
    → (spec.host ≢ "") × Names user spec
unfolding parse_target
parse_target-Names user spec h = elim (Option-cases (cut target_separator user)) [
  | inl e ↦ (
    λ p. ground (arith, eq_iff user ""),
    inl (Without-of_cut target_separator user e, ground arith, ground arith),
  )
  | inr (p, e) ↦
      let (w, (c, sep, eq)) = cut_sound target_separator user p.0 p.1 e in
      let joined =
        eq
        ∙ ap (λ d. p.0 +++ (String.◌∷◌ d p.1)) (codes_equal c plus (ground arith))
        ∙ plus_text p.0 p.1 in
      let login : p.0 ≡ spec.requested_login = ground arith in
      let host : p.1 ≡ spec.host = ground arith in
      (
        λ q. ground (arith, eq_iff p.1 ""),
        inr (
          subst (Without target_separator) login w,
          joined ∙ ap₂ (λ a b. a +++ "+" +++ b) login host,
        ),
      )
]

parse_bare :
    (host : String)
    → host ≢ ""
    → Without target_separator host
    → parse_target host ≡ ok (record { requested_login = ""; host = host })
unfolding parse_target
parse_bare host h w = ground (arith, eq_iff host "", cut-Without target_separator host w, h)

not-empty_of_cut :
    (sep : ℕ) (s : String) (p : String × String) → cut sep s ≡ some p → (s == "") ≡ false
unfolding cut
not-empty_of_cut sep String.[] p h = cc
not-empty_of_cut sep (String.◌∷◌ c s) p h = rw (compare.cons-nil c s) refl

parse_joined :
    (login host : String)
    → host ≢ ""
    → Without target_separator login
    → parse_target (login +++ "+" +++ host) ≡ ok (record { requested_login = login; host = host })
unfolding parse_target
parse_joined login host h w =
    let found : cut target_separator (login +++ "+" +++ host) ≡ some (login, host) =
      rw (← plus_text login host) (cut-join target_separator login plus host w refl) in
    ground (
      arith,
      found,
      h,
      eq_iff host "",
      eq_iff (login +++ "+" +++ host) "",
      not-empty_of_cut target_separator (login +++ "+" +++ host) (login, host) found,
    )

-- The name of a user is accepted as a target exactly when it is a host alone, with no separator, or
-- an account and a host with the first separator between them; the host is never empty.
pub parse_target_iff :
    (user : String) (spec : TargetSpec)
    → (parse_target user ≡ ok spec) ↔ ((spec.host ≢ "") × Names user spec)
parse_target_iff user spec = (
  parse_target-Names user spec,
  λ (h, names). elim names [
    | inl (w, l, e) ↦
        rw (← e) (cc (parse_bare spec.host h (subst (Without target_separator) (sym e) w), l))
    | inr (w, e) ↦ rw e (parse_joined spec.requested_login spec.host h w)
  ],
)
