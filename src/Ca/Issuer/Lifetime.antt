-- ===== src/Ca/Issuer/Lifetime.antt =====
-- internal/ca/issuer.go: the validity of a certificate, its serial number and the errors.
use Prim.Native.Nat.{◌≤◌}
use mathlib.Core.Path.{subst₂}
use native.Mathlib.Nat.{le_refl}
use ssh_access.Prelude.{
  ℕ, ◌+◌, ◌*◌, ◌/◌, ◌≡◌, refl, sym, ap, ◌∙◌, Option, none, some, List, [], ◌∷◌, arith,
}
use ssh_access.Prelude.Int.{ℤ, pos, negsuc, ◌+ℤ◌, ◌-ℤ◌, ◌≤ℤ◌, int_laws, +ℤ_parts}
use ssh_access.Ca.Issuer.{
  Issuer, IssuerOption, with_clock, with_clock_skew, IssueParams, Certificate, Authority,
  SerialAllocator, ok, second, unix_seconds, clamp_ttl, build, apply_options, default_issuer,
  check_skew, new_issuer, issue,
}
use ssh_access.Ca.Issuer.Principals.{issue-Issued}

unix_seconds_mono : (a b : ℤ) → a ≤ℤ b → unix_seconds a ≤ unix_seconds b
unfolding unix_seconds
unix_seconds_mono (pos a) (pos b) h = omega arith
unix_seconds_mono (negsuc a) b h = omega arith
unix_seconds_mono (pos a) (negsuc b) h = omega arith

unix_seconds-span :
    (a b d : ℤ)
    → b ≤ℤ a +ℤ d
    → pos 0 ≤ℤ d
    → pos (unix_seconds b * second) ≤ℤ pos ((unix_seconds a + 1) * second) +ℤ d
unfolding unix_seconds
unix_seconds-span (pos a) (pos b) d h k =
    omega (arith, +ℤ_parts (pos a) d, +ℤ_parts (pos ((a / second + 1) * second)) d)
unix_seconds-span (negsuc a) (pos b) d h k =
    omega (arith, +ℤ_parts (negsuc a) d, +ℤ_parts (pos ((0 + 1) * second)) d)
unix_seconds-span (pos a) (negsuc b) d h k =
    omega (arith, +ℤ_parts (pos a) d, +ℤ_parts (pos ((a / second + 1) * second)) d)
unix_seconds-span (negsuc a) (negsuc b) d h k =
    omega (arith, +ℤ_parts (negsuc a) d, +ℤ_parts (pos ((0 + 1) * second)) d)

module _ {Key S : Type 0} where
  apply_options-max_ttl :
      (opts : List IssuerOption) (i : Issuer Key S) → (apply_options opts i).max_ttl ≡ i.max_ttl
  unfolding apply_options
  apply_options-max_ttl [] i = refl
  apply_options-max_ttl (with_clock f ∷ opts) i =
      apply_options-max_ttl opts (record i { clock = f })
  apply_options-max_ttl (with_clock_skew d ∷ opts) i =
      apply_options-max_ttl opts (record i { clock_skew = d })

  -- What NewIssuer has checked of an issuer that it returns.
  pub record IsValid (i : Issuer Key S) (max_ttl : ℤ) : Type 0 where
    pub cap : i.max_ttl ≡ max_ttl
    pub positive : pos 1 ≤ℤ max_ttl
    pub skew : pos 0 ≤ℤ i.clock_skew

  check_skew-eq-ok : (i j : Issuer Key S) → check_skew i ≡ ok j → (i ≡ j) × (pos 0 ≤ℤ j.clock_skew)
  unfolding check_skew
  check_skew-eq-ok i j h = ground arith

  pub new_issuer-IsValid :
      (a : Option (Authority Key)) (s : Option (SerialAllocator S)) (max_ttl : ℤ)
      (opts : List IssuerOption) (i : Issuer Key S)
      → new_issuer a s max_ttl opts ≡ ok i
      → IsValid i max_ttl
  unfolding new_issuer
  new_issuer-IsValid none s max_ttl opts i h = ground arith
  new_issuer-IsValid (some a) none max_ttl opts i h = ground arith
  new_issuer-IsValid (some a) (some s) max_ttl opts i h =
      let (same, skew) =
        check_skew-eq-ok (apply_options opts (default_issuer a s max_ttl)) i (ground arith) in
      record {
        cap = ap (λ (j : Issuer Key S). j.max_ttl) (sym same) ∙ apply_options-max_ttl opts _;
        positive = ground arith;
        skew = skew;
      }

  -- The lifetime that the certificate gets is positive and within the cap.
  clamp_ttl_bounds :
      (i : Issuer Key S) (max_ttl ttl : ℤ)
      → IsValid i max_ttl
      → (pos 1 ≤ℤ clamp_ttl i ttl) × (clamp_ttl i ttl ≤ℤ max_ttl)
  unfolding clamp_ttl
  clamp_ttl_bounds i max_ttl ttl v = ground (arith, v.cap, v.positive)

  -- The two bounds, for the reading `now` of the clock and a lifetime `ttl`.
  Spans : Issuer Key S → ℤ → ℤ → ℕ → ℕ → Type 0
  Spans i max_ttl now after before =
      (after ≤ unix_seconds now)
      × (unix_seconds now ≤ before)
      × (before ≤ unix_seconds (now +ℤ max_ttl))
      × (unix_seconds (now -ℤ i.clock_skew) ≤ after)
      × (pos (before * second) ≤ℤ pos ((after + 1) * second) +ℤ (max_ttl +ℤ i.clock_skew))

  span :
      (i : Issuer Key S) (max_ttl now ttl : ℤ)
      → IsValid i max_ttl
      → pos 1 ≤ℤ ttl
      → ttl ≤ℤ max_ttl
      → Spans i max_ttl now (unix_seconds (now -ℤ i.clock_skew)) (unix_seconds (now +ℤ ttl))
  unfolding Spans
  span i max_ttl now ttl v positive capped = (
    unix_seconds_mono _ _ (omega (int_laws, v.skew)),
    unix_seconds_mono _ _ (omega int_laws),
    unix_seconds_mono _ _ (omega int_laws),
    le_refl _,
    unix_seconds-span (now -ℤ i.clock_skew) (now +ℤ ttl) (max_ttl +ℤ i.clock_skew)
        (omega (int_laws, v.skew)) (omega (int_laws, v.skew)),
  )

  -- A certificate from an issuer that `NewIssuer` returned is valid at the time of issue. It begins
  -- no earlier than the clock skew before that time and ends no later than `max_ttl` after it, so
  -- that it spans at most `max_ttl` and the skew, up to one second of rounding.
  pub issue_lifetime :
      (a : Option (Authority Key)) (s : Option (SerialAllocator S)) (max_ttl : ℤ)
      (opts : List IssuerOption) (i : Issuer Key S) (p : IssueParams Key) (time : ℤ) (st : S)
      (c : Certificate Key)
      → new_issuer a s max_ttl opts ≡ ok i
      → (issue i p time st).0 ≡ ok c
      → (c.valid_after ≤ unix_seconds (i.clock time))
        × (unix_seconds (i.clock time) ≤ c.valid_before)
        × (c.valid_before ≤ unix_seconds (i.clock time +ℤ max_ttl))
        × (unix_seconds (i.clock time -ℤ i.clock_skew) ≤ c.valid_after)
        × (pos (c.valid_before * second)
            ≤ℤ pos ((c.valid_after + 1) * second) +ℤ (max_ttl +ℤ i.clock_skew))
  unfolding build Spans
  issue_lifetime a s max_ttl opts i p time st c made issued =
      let v = new_issuer-IsValid a s max_ttl opts i made in
      let r = issue-Issued i p time st c issued in
      let (positive, capped) = clamp_ttl_bounds i max_ttl p.ttl v in
      subst₂ (λ after before. Spans i max_ttl (i.clock time) after before)
        (ap (λ (x : Certificate Key). x.valid_after) (sym r.built))
        (ap (λ (x : Certificate Key). x.valid_before) (sym r.built))
        (span i max_ttl (i.clock time) (clamp_ttl i p.ttl) v positive capped)
