-- ===== src/Store/SshLogin/Consume.antt =====
-- internal/store/ssh_login.go: a login is let in once, and only as the subject who approved it.
use ssh_access.Prelude.{
  ℕ, String, Bool, true, eq_iff, eq_refl, ◌≡◌, inl, inr, none, some, List, [], ◌∷◌, map, any, ◌||◌,
  refl, arith, All, All-mono, All-both, All-map, All-filter, any-All, find, find-All, Option-cases,
  if_elim,
}
use mathlib.Core.Path.{subst}
use ssh_access.Store.SshLogin.{
  Table, SshLoginRequest, create_ssh_login_request, approve_ssh_login, deny_ssh_login,
  consume_ssh_login, delete_expired_ssh_logins, awaits, decide_row, consume_row, consumable, has_id,
  has_code, decide_ssh_login, is_approved, text_of, returning, approved, denied,
}
use ssh_access.Store.SshLogin.History.{
  Op, create, approve, deny, consume, clean, step, table_after, ApprovedBy, or_same, second_or_same,
}

abbrev Vouched : List Op → SshLoginRequest → Type 0
Vouched h r = is_approved r.status ≡ true → ApprovedBy r.id (text_of r.entra_subject) h

-- An approval that finds its request vouches for the rows that it changes.
Vouched-approve :
    (hash subject : String) (now : ℕ) (h : List Op) (r : SshLoginRequest)
    → ((p : SshLoginRequest → Bool) → p r ≡ true → any p (table_after h) ≡ true)
    → Vouched h r
    → Vouched (approve hash subject now ∷ h) (decide_row hash subject approved now r)
Vouched-approve hash subject now h r found v =
    if_elim (Vouched (approve hash subject now ∷ h)) (awaits hash now r)
      (λ e k. inl (hash, now, refl, found _ (ground (arith, eq_refl r.id)))) (λ e k. inr (v k))

module _ (op : Op) (h : List Op) where
  later : (r : SshLoginRequest) → Vouched h r → Vouched (op ∷ h) r
  later r v k = inr (v k)

  Vouched-deny :
      (hash subject : String) (now : ℕ) (r : SshLoginRequest)
      → Vouched h r
      → Vouched (op ∷ h) (decide_row hash subject denied now r)
  Vouched-deny hash subject now r v =
      if_elim (Vouched (op ∷ h)) (awaits hash now r) (λ e k. absurd (ground arith)) (λ e. later r v)

  Vouched-consume :
      (id : String) (now : ℕ) (r : SshLoginRequest)
      → Vouched h r
      → Vouched (op ∷ h) (consume_row id now r)
  Vouched-consume id now r v =
      if_elim (Vouched (op ∷ h)) (consumable id now r) (λ e k. absurd (ground arith))
        (λ e. later r v)

step-Vouched :
    (op : Op) (h : List Op)
    → All (Vouched h) (table_after h)
    → All (Vouched (op ∷ h)) (step op (table_after h))
unfolding step create_ssh_login_request approve_ssh_login deny_ssh_login decide_ssh_login
    consume_ssh_login delete_expired_ssh_logins
step-Vouched (create id hash ip target expires now) h a =
    let op = create id hash ip target expires now in
    let kept = All-mono (Vouched h) (Vouched (op ∷ h)) (later op h) (table_after h) a in
    if_elim (λ o. All (Vouched (op ∷ h)) (second_or_same o (table_after h)))
      (any (has_id id) (table_after h) || any (has_code hash) (table_after h)) (λ e. kept)
      (λ e. (λ k. absurd (ground arith), kept))
step-Vouched (approve hash subject now) h a =
    let op = approve hash subject now in
    let V = Vouched (op ∷ h) in
    let f = decide_row hash subject approved now in
    let t = table_after h in
    if_elim (λ o. All V (or_same o t)) (any (awaits hash now) t)
      (λ e.
        All-map (λ r. V (f r)) V f (λ r p. p) t
          (All-both _ (Vouched h) (λ r. V (f r)) (Vouched-approve hash subject now h) t (any-All t)
            a))
      (λ e. All-mono (Vouched h) V (later op h) t a)
step-Vouched (deny hash subject now) h a =
    let op = deny hash subject now in
    let V = Vouched (op ∷ h) in
    let t = table_after h in
    if_elim (λ o. All V (or_same o t)) (any (awaits hash now) t)
      (λ e.
        All-map (Vouched h) V (decide_row hash subject denied now)
          (Vouched-deny op h hash subject now) t a)
      (λ e. All-mono (Vouched h) V (later op h) t a)
step-Vouched (consume id now) h a =
    elim (find (consumable id now) (table_after h))
      as (λ o.
        All (Vouched (consume id now ∷ h)) (
          second_or_same (returning (map (consume_row id now) (table_after h)) o)
            (table_after h))) [
              | none ↦
                  All-mono (Vouched h) (Vouched (consume id now ∷ h)) (later (consume id now) h)
                    (table_after h) a
              | some r ↦
                  All-map (Vouched h) (Vouched (consume id now ∷ h)) (consume_row id now)
                    (Vouched-consume (consume id now) h id now) (table_after h) a
            ]
step-Vouched (clean cutoff) h a =
    All-mono (Vouched h) _ (later (clean cutoff) h) _ (All-filter (Vouched h) _ (table_after h) a)

table_after-Vouched : (h : List Op) → All (Vouched h) (table_after h)
unfolding table_after
table_after-Vouched [] = tt
table_after-Vouched (op ∷ h) = step-Vouched op h (table_after-Vouched h)

-- Whatever the history of the table, a login is consumed only as a subject who approved that very
-- request by its code, while it was pending and unexpired.
pub consume-ApprovedBy :
    (h : List Op) (id subject : String) (now : ℕ) (t : Table)
    → consume_ssh_login id now (table_after h) ≡ some (subject, t)
    → ApprovedBy id subject h
unfolding consume_ssh_login
consume-ApprovedBy h id subject now t e =
    elim (Option-cases (find (consumable id now) (table_after h))) [
      | inl n ↦ absurd (ground arith)
      | inr (r, n) ↦
          let (v, c) =
            find-All (Vouched h) (consumable id now) (table_after h) r (table_after-Vouched h) n in
          let same_id : r.id ≡ id = ground (arith, eq_iff r.id id) in
          let same_subject : text_of r.entra_subject ≡ subject = ground arith in
          subst (λ i. ApprovedBy i subject h) same_id
            (subst (λ s. ApprovedBy r.id s h) same_subject (v (ground arith)))
    ]
