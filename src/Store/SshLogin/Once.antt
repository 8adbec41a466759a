-- ===== src/Store/SshLogin/Once.antt =====
-- internal/store/ssh_login.go: a login can be consumed at most once.
use ssh_access.Prelude.{
  ℕ, String, Bool, true, false, ◌==◌, eq_iff, ◌≡◌, inl, inr, none, some, List, [], ◌∷◌, ◌++◌, map,
  any, ◌||◌, refl, arith, filter, not, All, All-map, All-filter, find, Bool-cases, Option-cases,
  ◌∙◌, ap, sym, if_elim,
}
use mathlib.Core.Path.{subst}
use ssh_access.Store.SshLogin.{
  Table, SshLoginRequest, Status, create_ssh_login_request, approve_ssh_login, deny_ssh_login,
  consume_ssh_login, delete_expired_ssh_logins, awaits, decide_row, consume_row, consumable, has_id,
  has_code, decide_ssh_login, disposable, is_approved, is_pending, returning, approved, denied,
}
use ssh_access.Store.SshLogin.History.{
  Op, create, approve, deny, consume, clean, step, table_after, NotCreated, or_same, second_or_same,
}

-- The primary key.
abbrev UniqueIds : Table → Type 0
UniqueIds [] = Unit
UniqueIds (r ∷ t) = (any (has_id r.id) t ≡ false) × UniqueIds t

-- The row is not of this id, or it can no longer be consumed or decided.
abbrev Spent : String → SshLoginRequest → Type 0
Spent id r = (r.id == id) ≡ true → (is_pending r.status || is_approved r.status) ≡ false

module _ (f : SshLoginRequest → SshLoginRequest)
    (keeps : (r : SshLoginRequest) → (f r).id ≡ r.id) where
  any-map : (i : String) (t : Table) → any (has_id i) (map f t) ≡ any (has_id i) t
  any-map i [] = refl
  any-map i (r ∷ t) = ground (arith, keeps r, any-map i t)

  UniqueIds-map : (t : Table) → UniqueIds t → UniqueIds (map f t)
  UniqueIds-map [] u = tt
  UniqueIds-map (r ∷ t) (u, us) = (
    any-map (f r).id t ∙ subst (λ i. any (has_id i) t ≡ false) (sym (keeps r)) u,
    UniqueIds-map t us,
  )

any-filter :
    (q : SshLoginRequest → Bool) (i : String) (t : Table)
    → any (has_id i) t ≡ false
    → any (has_id i) (filter q t) ≡ false
any-filter q i [] h = refl
any-filter q i (r ∷ t) h = ground (arith, any-filter q i t)

UniqueIds-filter : (q : SshLoginRequest → Bool) (t : Table) → UniqueIds t → UniqueIds (filter q t)
UniqueIds-filter q [] u = tt
UniqueIds-filter q (r ∷ t) (u, us) =
    if_elim UniqueIds (q r) (λ e. (any-filter q r.id t u, UniqueIds-filter q t us))
      (λ e. UniqueIds-filter q t us)

decide_row_id :
    (hash subject : String) (s : Status) (now : ℕ) (r : SshLoginRequest)
    → (decide_row hash subject s now r).id ≡ r.id
decide_row_id hash subject s now r =
    if_elim (λ (q : SshLoginRequest). q.id ≡ r.id) (awaits hash now r) (λ e. refl) (λ e. refl)

consume_row_id : (id : String) (now : ℕ) (r : SshLoginRequest) → (consume_row id now r).id ≡ r.id
consume_row_id id now r =
    if_elim (λ (q : SshLoginRequest). q.id ≡ r.id) (consumable id now r) (λ e. refl) (λ e. refl)

decide_ssh_login-UniqueIds :
    (hash subject : String) (s : Status) (now : ℕ) (t : Table)
    → UniqueIds t
    → UniqueIds (or_same (decide_ssh_login hash subject s now t) t)
unfolding decide_ssh_login
decide_ssh_login-UniqueIds hash subject s now t u =
    if_elim (λ o. UniqueIds (or_same o t)) (any (awaits hash now) t)
      (λ e. UniqueIds-map (decide_row hash subject s now) (decide_row_id hash subject s now) t u)
      (λ e. u)

step-UniqueIds : (op : Op) (t : Table) → UniqueIds t → UniqueIds (step op t)
unfolding step create_ssh_login_request approve_ssh_login deny_ssh_login consume_ssh_login
    delete_expired_ssh_logins
step-UniqueIds (create id hash ip target expires now) t u =
    if_elim (λ o. UniqueIds (second_or_same o t)) (any (has_id id) t || any (has_code hash) t)
      (λ e. u) (λ e. (ground arith, u))
step-UniqueIds (approve hash subject now) t u =
    decide_ssh_login-UniqueIds hash subject approved now t u
step-UniqueIds (deny hash subject now) t u = decide_ssh_login-UniqueIds hash subject denied now t u
step-UniqueIds (consume id now) t u =
    elim (find (consumable id now) t)
      as (λ o. UniqueIds (second_or_same (returning (map (consume_row id now) t) o) t)) [
        | none ↦ u
        | some r ↦ UniqueIds-map (consume_row id now) (consume_row_id id now) t u
      ]
step-UniqueIds (clean cutoff) t u = UniqueIds-filter (λ r. not (disposable cutoff r)) t u

table_after-UniqueIds : (h : List Op) → UniqueIds (table_after h)
unfolding table_after
table_after-UniqueIds [] = tt
table_after-UniqueIds (op ∷ h) = step-UniqueIds op (table_after h) (table_after-UniqueIds h)

-- Rows of no such id are spent.
Spent-absent : (id : String) (t : Table) → any (has_id id) t ≡ false → All (Spent id) t
Spent-absent id [] h = tt
Spent-absent id (r ∷ t) h = (λ e. absurd (ground arith), Spent-absent id t (ground arith))

find_absent :
    (id : String) (now : ℕ) (t : Table) (r : SshLoginRequest)
    → any (has_id id) t ≡ false
    → find (consumable id now) t ≡ some r
    → ⊥
find_absent id now [] r h e = ground arith
find_absent id now (q ∷ t) r h e = find_absent id now t r (ground arith) (ground arith)

-- The row that a successful consumption finds is the only one of its id.
consume_row-Spent :
    (id : String) (now : ℕ) (t : Table) (r : SshLoginRequest)
    → UniqueIds t
    → find (consumable id now) t ≡ some r
    → All (Spent id) (map (consume_row id now) t)
consume_row-Spent id now [] r u e = tt
consume_row-Spent id now (q ∷ t) r (u, us) e = elim (Bool-cases (consumable id now q)) [
  | inl c ↦
      let same : q.id ≡ id = ground (arith, eq_iff q.id id) in
      let absent : any (has_id id) t ≡ false = subst (λ i. any (has_id i) t ≡ false) same u in
      (
        if_elim (Spent id) (consumable id now q) (λ e k. refl) (λ e. absurd (ground arith)),
        Spent-absent id _ (any-map (consume_row id now) (consume_row_id id now) id t ∙ absent),
      )
  | inr c ↦
      let rest : find (consumable id now) t ≡ some r = ground arith in
      (
        if_elim (Spent id) (consumable id now q) (λ e k. refl)
            (λ e k. absurd (
              find_absent id now t r
                (subst (λ i. any (has_id i) t ≡ false) ((eq_iff q.id id).0 k) u) rest)),
        consume_row-Spent id now t r us rest,
      )
]

decide_row-Spent :
    (id hash subject : String) (s : Status) (now : ℕ) (r : SshLoginRequest)
    → Spent id r
    → Spent id (decide_row hash subject s now r)
decide_row-Spent id hash subject s now r p =
    if_elim (Spent id) (awaits hash now r) (λ e k. absurd (ground (arith, p k))) (λ e. p)

decide_ssh_login-Spent :
    (id hash subject : String) (s : Status) (now : ℕ) (t : Table)
    → All (Spent id) t
    → All (Spent id) (or_same (decide_ssh_login hash subject s now t) t)
unfolding decide_ssh_login
decide_ssh_login-Spent id hash subject s now t a =
    if_elim (λ o. All (Spent id) (or_same o t)) (any (awaits hash now) t)
      (λ e.
        All-map (Spent id) (Spent id) (decide_row hash subject s now)
          (decide_row-Spent id hash subject s now) t a)
      (λ e. a)

step-Spent :
    (id : String) (op : Op) (t : Table)
    → NotCreated id (op ∷ [])
    → All (Spent id) t
    → All (Spent id) (step op t)
unfolding step create_ssh_login_request approve_ssh_login deny_ssh_login consume_ssh_login
    delete_expired_ssh_logins
step-Spent id (create j hash ip target expires now) t n a =
    if_elim (λ o. All (Spent id) (second_or_same o t)) (any (has_id j) t || any (has_code hash) t)
      (λ e. a) (λ e. (λ k. absurd (ground arith), a))
step-Spent id (approve hash subject now) t n a =
    decide_ssh_login-Spent id hash subject approved now t a
step-Spent id (deny hash subject now) t n a = decide_ssh_login-Spent id hash subject denied now t a
step-Spent id (consume j now) t n a =
    elim (find (consumable j now) t)
      as (λ o. All (Spent id) (second_or_same (returning (map (consume_row j now) t) o) t)) [
        | none ↦ a
        | some r ↦
            All-map (Spent id) (Spent id) (consume_row j now)
              (λ q p. if_elim (Spent id) (consumable j now q) (λ e k. refl) (λ e. p)) t a
      ]
step-Spent id (clean cutoff) t n a = All-filter (Spent id) (λ r. not (disposable cutoff r)) t a

NotCreated-head :
    (id : String) (op : Op) (ops : List Op)
    → NotCreated id (op ∷ ops)
    → NotCreated id (op ∷ []) × NotCreated id ops
NotCreated-head id (create j hash ip target expires now) ops n = ((n.0, tt), n.1)
NotCreated-head id (approve hash subject now) ops n = (tt, n)
NotCreated-head id (deny hash subject now) ops n = (tt, n)
NotCreated-head id (consume j now) ops n = (tt, n)
NotCreated-head id (clean cutoff) ops n = (tt, n)

since_Spent :
    (id : String) (since h : List Op)
    → NotCreated id since
    → All (Spent id) (table_after h)
    → All (Spent id) (table_after (since ++ h))
unfolding table_after
since_Spent id [] h n a = a
since_Spent id (op ∷ since) h n a =
    let (n₀, n₁) = NotCreated-head id op since n in
    step-Spent id op (table_after (since ++ h)) n₀ (since_Spent id since h n₁ a)

find-Spent :
    (id : String) (now : ℕ) (t : Table) → All (Spent id) t → find (consumable id now) t ≡ none
find-Spent id now [] a = refl
find-Spent id now (r ∷ t) (p, a) = ground (arith, p, find-Spent id now t a)

-- Once a login was consumed, no later consumption of it succeeds, whatever statements ran in between,
-- as long as none of them creates a request of the same id again.
pub consume_once :
    (since h : List Op) (id subject : String) (first second : ℕ) (t : Table)
    → consume_ssh_login id first (table_after h) ≡ some (subject, t)
    → NotCreated id since
    → consume_ssh_login id second (table_after (since ++ consume id first ∷ h)) ≡ none
unfolding consume_ssh_login table_after step
consume_once since h id subject first second t e n =
    elim (Option-cases (find (consumable id first) (table_after h))) [
      | inl f ↦ absurd (ground arith)
      | inr (r, f) ↦
          let spent = consume_row-Spent id first (table_after h) r (table_after-UniqueIds h) f in
          let updated = map (consume_row id first) (table_after h) in
          let here : All (Spent id) (table_after (consume id first ∷ h)) =
            subst (λ o. All (Spent id) (second_or_same (returning updated o) (table_after h)))
              (sym f) spent in
          ap (returning _)
            (find-Spent id second _ (since_Spent id since (consume id first ∷ h) n here))
    ]
