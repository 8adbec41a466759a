-- ===== src/Ca/Serial.antt =====
-- internal/ca/serial.go: the in-process counter, an atomic uint64 that starts again after 2^64 steps.
use ssh_access.Prelude.{
  ℕ, ◌+◌, ◌%◌, ◌^◌, ◌≤◌, ◌<◌, ◌≡◌, Option, some, List, [], ◌∷◌, arith, length, inl, inr,
}
use ssh_access.Prelude.Int.{ℤ}
use ssh_access.Ca.Issuer.{
  Issuer, SerialAllocator, IssueParams, Certificate, Result, Result-cases, ok, err, issue,
}
use ssh_access.Ca.Issuer.Outcomes.{issue_state, issue_serial}
use native.Mathlib.Nat.{mod-eq_of_lt}

-- c.n.Add(1)
abbrev pub counter_next : ℕ → Option ℕ × ℕ
counter_next n = (some ((n + 1) % 2 ^ 64), (n + 1) % 2 ^ 64)

abbrev pub counter_allocator : SerialAllocator ℕ
counter_allocator = record { next = counter_next }

-- The first `Next` of the allocator returns `start + 1`.
abbrev pub new_counter_allocator : ℕ → ℕ
new_counter_allocator start = start % 2 ^ 64

module _ {Key S : Type 0} where
  -- Requests that are served one after another, each at its own time.
  unfoldable pub issue_all :
      Issuer Key S → List (IssueParams Key × ℤ) → S → List (Result (Certificate Key))
  issue_all i [] s = []
  issue_all i ((p, time) ∷ rest) s = (issue i p time s).0 ∷ issue_all i rest (issue i p time s).1

-- Above `n` and strictly increasing.
abbrev pub Increasing : ℕ → List ℕ → Type 0
Increasing n [] = Unit
Increasing n (m ∷ ms) = (n < m) × Increasing m ms

Increasing-mono : {m n : ℕ} (ms : List ℕ) → m ≤ n → Increasing n ms → Increasing m ms
Increasing-mono [] h b = tt
Increasing-mono (x ∷ ms) h b = (omega arith, b.1)

module _ {Key : Type 0} where
  abbrev pub serials_of : List (Result (Certificate Key)) → List ℕ
  serials_of [] = []
  serials_of (ok c ∷ rest) = c.serial ∷ serials_of rest
  serials_of (err e ∷ rest) = serials_of rest

  module _ (i : Issuer Key ℕ) (counts : i.serials ≡ counter_allocator) where
    next-counter : (n : ℕ) → n + 1 < 2 ^ 64 → i.serials.next n ≡ (some (n + 1), n + 1)
    next-counter n h = rw counts (ground (arith, mod-eq_of_lt h))

    -- The counter moves by one at most, and a certificate gets its new value.
    counter-bounds :
        (p : IssueParams Key) (time : ℤ) (n : ℕ)
        → n + 1 < 2 ^ 64
        → (n ≤ (issue i p time n).1) × ((issue i p time n).1 ≤ n + 1)
    counter-bounds p time n h = ground (arith, issue_state i p time n, next-counter n h)

    counter-serial :
        (p : IssueParams Key) (time : ℤ) (n : ℕ) (c : Certificate Key)
        → n + 1 < 2 ^ 64
        → (issue i p time n).0 ≡ ok c
        → (c.serial ≡ n + 1) × ((issue i p time n).1 ≡ n + 1)
    counter-serial p time n c h e = ground (arith, issue_serial i p time n c e, next-counter n h)

    -- The serial numbers of the certificates that a broker issues one after another with the
    -- in-process counter are strictly increasing and lie above the counter's start, as long as the
    -- counter does not wrap at 2^64.
    pub issue_all-Increasing :
        (reqs : List (IssueParams Key × ℤ)) (n : ℕ)
        → n + length reqs < 2 ^ 64
        → Increasing n (serials_of (issue_all i reqs n))
    unfolding issue_all
    issue_all-Increasing [] n h = tt
    issue_all-Increasing ((p, time) ∷ rest) n h =
        let ih = issue_all-Increasing rest (issue i p time n).1 in
        let bounds = counter-bounds p time n (omega arith) in
        elim (Result-cases (issue i p time n).0) [
          | inl (c, e) ↦
              let (new, moved) = counter-serial p time n c (omega arith) e in
              rw e (omega arith, Increasing-mono _ (omega arith) (ih (omega arith)))
          | inr (e, h') ↦ rw h' (Increasing-mono _ bounds.0 (ih (omega arith)))
        ]
