-- ===== src/Store/Audit/Append.antt =====
-- internal/store/audit.go: an append keeps the log verified.
use ssh_access.Prelude.{
  ℕ, ◌+◌, ◌≡◌, ◌≢◌, refl, ap, ◌∙◌, some, List, [], ◌∷◌, arith, length, length-append,
}
use ssh_access.Prelude.Bytes.{Bytes}
use ssh_access.Store.Audit.{
  Detail, Formats, AuditEvent, AuditRecord, verified, append_audit, canonical_detail, row_hash,
  verify_audit_chain,
}
use ssh_access.Store.Audit.Chain.{Chain, Chain-append, verify_iff}

-- json.Marshal sorts the keys of a map, so that a map read back from the column is written as before.
pub record ReadsBack (f : Formats) : Type 0 where
  pub read : Detail → Detail
  pub stored : (d : Detail) → f.unmarshal (f.jsonb (f.marshal d)) ≡ some (read d)
  pub canonical : (d : Detail) → f.marshal (read d) ≡ f.marshal d
  pub not_empty : (d : Detail) → f.jsonb (f.marshal d) ≢ []

module _ (f : Formats) (reads : ReadsBack f) where
  canonical_detail_of :
      (b canon : Bytes) (m : Detail)
      → b ≢ []
      → f.unmarshal b ≡ some m
      → canonical_detail f b ≡ some (f.marshal m)
  unfolding canonical_detail
  canonical_detail_of [] canon m h e = absurd (h refl)
  canonical_detail_of (x ∷ b) canon m h e = ground (arith, e)

  -- Appends of events, each at its time.
  unfoldable pub append_all : List (AuditEvent × ℕ) → List AuditRecord → List AuditRecord
  append_all [] table = table
  append_all ((ev, now) ∷ evs) table = append_all evs (append_audit f ev now table)

  append_audit-Chain :
      (ev : AuditEvent) (now : ℕ) (table : List AuditRecord)
      → Chain f [] table
      → Chain f [] (append_audit f ev now table)
        × (length (append_audit f ev now table) ≡ length table + 1)
  unfolding append_audit row_hash
  append_audit-Chain ev now table c = (
    (Chain-append f [] table _).1 (
      c,
      (
        record {
          canon = f.marshal ev.detail;
          follows = refl;
          readable =
              canonical_detail_of _ [] (reads.read ev.detail) (reads.not_empty ev.detail)
                (reads.stored ev.detail)
              ∙ ap some (reads.canonical ev.detail);
          sealed = refl;
        },
        tt,
      ),
    ),
    length-append table _,
  )

  pub append_all-verified :
      (evs : List (AuditEvent × ℕ)) (table : List AuditRecord) (k : ℕ)
      → verify_audit_chain f table ≡ verified k
      → verify_audit_chain f (append_all evs table) ≡ verified (k + length evs)
  unfolding append_all
  append_all-verified [] table k h = h ∙ ap verified (omega arith)
  append_all-verified ((ev, now) ∷ evs) table k h =
      let (c, count) = (verify_iff f table k).0 h in
      let (c', count') = append_audit-Chain ev now table c in
      append_all-verified evs (append_audit f ev now table) (k + 1)
        ((verify_iff f _ (k + 1)).1 (c', omega (arith, count, count')))
      ∙ ap verified (omega arith)
