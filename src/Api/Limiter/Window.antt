-- ===== src/Api/Limiter/Window.antt =====
-- internal/api/auth_handlers.go: the limiter is a sliding window over the attempts that it let through.
use ssh_access.Prelude.{
  ℕ, ◌+◌, ◌≤◌, ◌<◌, String, Bool, true, false, ◌&&◌, ◌==◌, eq_iff, eq_refl, ◌≡◌, refl, ap, sym, ◌∙◌,
  List, [], ◌∷◌, ◌++◌, length, filter, lookup, lookup-put, if◌then◌else◌, ltb, arith, length-append,
  length-filter-le, Bool-cases, inl, inr,
}
use ssh_access.Api.Limiter.{LoginLimiter, new_login_limiter, times_of, after_cutoff, allow}

-- The attempts so far, by their keys and times, the last one first.
abbrev pub Attempts : Type 0
Attempts = List (String × ℕ)

-- No attempt is later than `now`, and none is earlier than one before it.
abbrev pub Ordered : ℕ → Attempts → Type 0
Ordered now [] = Unit
Ordered now ((k, t) ∷ earlier) = (t ≤ now) × Ordered t earlier

filter-append : (p : ℕ → Bool) (xs ys : List ℕ) → filter p (xs ++ ys) ≡ filter p xs ++ filter p ys
filter-append p [] ys = refl
filter-append p (x ∷ xs) ys = ground (arith, filter-append p xs ys)

filter-filter :
    (p q : ℕ → Bool) (xs : List ℕ)
    → ((x : ℕ) → p x ≡ true → q x ≡ true)
    → filter p (filter q xs) ≡ filter p xs
filter-filter p q [] h = refl
filter-filter p q (x ∷ xs) h = ground (arith, filter-filter p q xs h, h x)

abbrev newly : Bool → ℕ → List ℕ
newly b t = if b then t ∷ [] else []

append_nil : (ts : List ℕ) → ts ++ [] ≡ ts
append_nil [] = refl
append_nil (t ∷ ts) = ap (λ us. t ∷ us) (append_nil ts)

-- What one call leaves for its own key, and for another one.
allow-same :
    (key : String) (now : ℕ) (l : LoginLimiter)
    → times_of (lookup key (allow key now l).1.hits)
      ≡ filter (after_cutoff l.window now) (times_of (lookup key l.hits))
        ++ newly (allow key now l).0 now
unfolding allow
allow-same key now l =
    let kept = filter (after_cutoff l.window now) (times_of (lookup key l.hits)) in
    ground (
      arith,
      eq_refl key,
      append_nil kept,
      lookup-put key key kept l.hits,
      lookup-put key key (kept ++ now ∷ []) l.hits,
    )

allow-other :
    (k key : String) (now : ℕ) (l : LoginLimiter)
    → (k == key) ≡ false
    → lookup key (allow k now l).1.hits ≡ lookup key l.hits
unfolding allow
allow-other k key now l h =
    let kept = filter (after_cutoff l.window now) (times_of (lookup k l.hits)) in
    ground (arith, lookup-put k key kept l.hits, lookup-put k key (kept ++ now ∷ []) l.hits)

module _ (max window : ℕ) where
  unfoldable pub limiter_after : Attempts → LoginLimiter
  limiter_after [] = new_login_limiter max window
  limiter_after ((k, t) ∷ earlier) = (allow k t (limiter_after earlier)).1

  -- The times of the attempts with the key that were let through.
  unfoldable pub passed : String → Attempts → List ℕ
  unfolding limiter_after
  passed key [] = []
  passed key ((k, t) ∷ earlier) =
      let rest = passed key earlier in
      if k == key && (allow k t (limiter_after earlier)).0 then rest ++ t ∷ [] else rest

  abbrev stored : String → Attempts → List ℕ
  stored key h = times_of (lookup key (limiter_after h).hits)

  settings : (h : Attempts) → ((limiter_after h).max ≡ max) × ((limiter_after h).window ≡ window)
  unfolding limiter_after new_login_limiter allow
  settings [] = (refl, refl)
  settings ((k, t) ∷ earlier) = ground (arith, settings earlier)

  recent : ℕ → List ℕ → List ℕ
  recent now ts = filter (after_cutoff window now) ts

  stored_again :
      (key : String) (t : ℕ) (earlier : Attempts)
      → stored key ((key, t) ∷ earlier)
        ≡ recent t (stored key earlier) ++ newly (allow key t (limiter_after earlier)).0 t
  unfolding limiter_after recent
  stored_again key t earlier =
      allow-same key t (limiter_after earlier)
      ∙ ap
          (λ w.
            filter (after_cutoff w t) (stored key earlier)
            ++ newly (allow key t (limiter_after earlier)).0 t)
          (settings earlier).1

  passed_again :
      (k key : String) (t : ℕ) (earlier : Attempts)
      → (k == key) ≡ true
      → passed key ((k, t) ∷ earlier)
        ≡ passed key earlier ++ newly (allow k t (limiter_after earlier)).0 t
  unfolding passed
  passed_again k key t earlier h = ground (arith, h, append_nil (passed key earlier))

  passed_other :
      (k key : String) (t : ℕ) (earlier : Attempts)
      → (k == key) ≡ false
      → passed key ((k, t) ∷ earlier) ≡ passed key earlier
  unfolding passed
  passed_other k key t earlier h = ground (arith, h)

  recent-recent : (t now : ℕ) (ts : List ℕ) → t ≤ now → recent now (recent t ts) ≡ recent now ts
  unfolding recent
  recent-recent t now ts le =
      filter-filter (after_cutoff window now) (after_cutoff window t) ts (λ x h. ground arith)

  -- What is forgotten does not count at any later time.
  stored-recent :
      (key : String) (h : Attempts) (last now : ℕ)
      → Ordered last h
      → last ≤ now
      → recent now (stored key h) ≡ recent now (passed key h)
  unfolding limiter_after new_login_limiter lookup passed recent
  stored-recent key [] last now o le = refl
  stored-recent key ((k, t) ∷ earlier) last now o le = elim (Bool-cases (k == key)) [
    | inl e ↦
        let new = newly (allow key t (limiter_after earlier)).0 t in
        let from : stored key ((k, t) ∷ earlier) ≡ recent t (stored key earlier) ++ new =
          ap (λ j. stored key ((j, t) ∷ earlier)) ((eq_iff k key).0 e)
          ∙ stored_again key t earlier in
        ap (recent now) from
        ∙ filter-append (after_cutoff window now) (recent t (stored key earlier)) new
        ∙ ap (λ us. us ++ recent now new)
            (recent-recent t now (stored key earlier) (omega (arith, o.0, le))
              ∙ stored-recent key earlier t now o.1 (omega (arith, o.0, le)))
        ∙ sym (filter-append (after_cutoff window now) (passed key earlier) new)
        ∙ ap (recent now) (
            sym (passed_again key key t earlier (eq_refl key))
            ∙ ap (λ j. passed key ((j, t) ∷ earlier)) (sym ((eq_iff k key).0 e)))
    | inr e ↦
        ap (λ o. recent now (times_of o)) (allow-other k key t (limiter_after earlier) e)
        ∙ stored-recent key earlier t now o.1 (omega (arith, o.0, le))
        ∙ ap (recent now) (sym (passed_other k key t earlier e))
  ]

  -- An attempt is let through exactly when fewer than `max` attempts with its key were let through
  -- in the time `window` before it, whatever attempts were made with this key or others.
  pub allow_iff :
      (key : String) (now : ℕ) (h : Attempts)
      → Ordered now h
      → (allow key now (limiter_after h)).0
        ≡ ltb (length (filter (after_cutoff window now) (passed key h))) max
  unfolding allow recent
  allow_iff key now h o = ground (
    arith,
    settings h,
    ap (λ w. length (filter (after_cutoff w now) (stored key h))) (settings h).1,
    ap length (stored-recent key h now now o (omega arith)),
  )

  recent_less : (t now : ℕ) (ts : List ℕ) → t ≤ now → length (recent now ts) ≤ length (recent t ts)
  unfolding recent
  recent_less t now ts le = ground (
    arith,
    ap length (recent-recent t now ts le),
    length-filter-le (after_cutoff window now) (recent t ts),
  )

  passed_step :
      (now t : ℕ) (b : Bool) (ts : List ℕ) (n : ℕ)
      → t ≤ now
      → length (recent t ts) ≤ max
      → (b ≡ true → length (recent t ts) < max)
      → n ≡ length (recent now ts) + length (recent now (newly b t))
      → n ≤ max
  unfolding recent
  passed_step now t true ts n le h k e =
      ground (
        arith,
        k refl,
        recent_less t now ts le,
        length-filter-le (after_cutoff window now) (t ∷ []),
      )
  passed_step now t false ts n le h k e = ground (arith, recent_less t now ts le)

  -- At any time, at most `max` attempts with one key were let through within the time `window`.
  pub passed_bound :
      (key : String) (h : Attempts) (now : ℕ)
      → Ordered now h
      → length (filter (after_cutoff window now) (passed key h)) ≤ max
  unfolding passed recent
  passed_bound key [] now o = omega arith
  passed_bound key ((k, t) ∷ earlier) now o = elim (Bool-cases (k == key)) [
    | inl e ↦
        let b = (allow k t (limiter_after earlier)).0 in
        let fresh : (b ≡ true)
            → length (filter (after_cutoff window t) (passed key earlier)) < max =
          λ h. ground (
            arith,
            h,
            ap (λ j. (allow j t (limiter_after earlier)).0) ((eq_iff k key).0 e),
            allow_iff key t earlier o.1,
          ) in
        let split : length (recent now (passed key ((k, t) ∷ earlier)))
            ≡ length (recent now (passed key earlier)) + length (recent now (newly b t)) =
          ap (λ ts. length (recent now ts)) (passed_again k key t earlier e)
          ∙ ap length (filter-append (after_cutoff window now) (passed key earlier) (newly b t))
          ∙ length-append (recent now (passed key earlier)) (recent now (newly b t)) in
        passed_step now t b (passed key earlier) _ o.0 (passed_bound key earlier t o.1) fresh split
    | inr e ↦ ground (
      arith,
      ap (λ ts. length (recent now ts)) (passed_other k key t earlier e),
      recent_less t now (passed key earlier) o.0,
      passed_bound key earlier t o.1,
    )
  ]
