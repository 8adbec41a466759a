-- ===== src/Store/Audit/Chain.antt =====
-- internal/store/audit.go: what a verified log is.
use ssh_access.Prelude.{
  ℕ, ◌+◌, ◌≡◌, ap, ◌∙◌, ◌↔◌, some, List, [], ◌∷◌, ◌++◌, arith, length, Option-cases, inl, inr,
}
use ssh_access.Prelude.Bytes.{Bytes}
use ssh_access.Store.Audit.{
  Formats, AuditRecord, last_hash, verified, canonical_detail, row_hash, verify_loop,
  verify_audit_chain,
}
use ssh_access.Prelude.Bytes.{bytes_equal_iff}

module _ (f : Formats) where
  -- A row that continues the log after a row with hash `prev`.
  pub record Linked (prev : Bytes) (r : AuditRecord) : Type 0 where
    pub canon : Bytes
    pub follows : r.prev_hash ≡ prev
    pub readable : canonical_detail f r.detail ≡ some canon
    pub sealed : row_hash f r canon ≡ r.record_hash

  abbrev pub Chain : Bytes → List AuditRecord → Type 0
  Chain prev [] = Unit
  Chain prev (r ∷ rs) = Linked prev r × Chain r.record_hash rs

  pub Chain-append :
      (prev : Bytes) (rs ts : List AuditRecord)
      → Chain prev (rs ++ ts) ↔ (Chain prev rs × Chain (last_hash prev rs) ts)
  unfolding last_hash
  Chain-append prev [] ts = (λ c. (tt, c), λ c. c.1)
  Chain-append prev (r ∷ rs) ts =
      let (to, from) = Chain-append r.record_hash rs ts in
      (λ c. ((c.0, (to c.1).0), (to c.1).1), λ c. (c.0.0, from (c.0.1, c.1)))

  verify_sound :
      (prev : Bytes) (n k : ℕ) (rs : List AuditRecord)
      → verify_loop f prev n rs ≡ verified k
      → Chain prev rs × (k ≡ n + length rs)
  unfolding verify_loop
  verify_sound prev n k [] h = (tt, ground arith)
  verify_sound prev n k (r ∷ rs) h = elim (Option-cases (canonical_detail f r.detail)) [
    | inl e ↦ absurd (ground arith)
    | inr (canon, e) ↦
        let (chain, count) = verify_sound r.record_hash (n + 1) k rs (ground arith) in
        (
          (
            record {
              canon = canon;
              follows = (bytes_equal_iff r.prev_hash prev).0 (ground arith);
              readable = e;
              sealed = (bytes_equal_iff (row_hash f r canon) r.record_hash).0 (ground arith);
            },
            chain,
          ),
          omega (arith, count),
        )
  ]

  verify_complete :
      (prev : Bytes) (n : ℕ) (rs : List AuditRecord)
      → Chain prev rs
      → verify_loop f prev n rs ≡ verified (n + length rs)
  unfolding verify_loop
  verify_complete prev n [] c = ground arith
  verify_complete prev n (r ∷ rs) (l, c) = ground (
    arith,
    (bytes_equal_iff r.prev_hash prev).1 l.follows,
    l.readable,
    (bytes_equal_iff (row_hash f r l.canon) r.record_hash).1 l.sealed,
    verify_complete r.record_hash (n + 1) rs c,
  )

  -- Verification reports `k` verified records and no fault exactly when the log has `k` records, each
  -- of which names the hash of the one before it (the first one none), has a detail that can
  -- be read, and carries the hash of its own fields.
  pub verify_iff :
      (table : List AuditRecord) (k : ℕ)
      → (verify_audit_chain f table ≡ verified k) ↔ (Chain [] table × (k ≡ length table))
  unfolding verify_audit_chain
  verify_iff table k = (
    λ h. let (c, e) = verify_sound [] 0 k table h in (c, omega (arith, e)),
    λ (c, e). verify_complete [] 0 table c ∙ ap verified (omega arith),
  )
