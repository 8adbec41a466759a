-- ===== src/Store/Audit/Tampering.antt =====
-- internal/store/audit.go: what it takes to change a verified log without changing its last hash.
use mathlib.Core.Path.{subst}
use ssh_access.Prelude.{
  ℕ, ◌≤◌, ◌≡◌, ◌≢◌, leb, refl, sym, ap, ◌∙◌, ◌⊎◌, inl, inr, some, List, [], ◌∷◌, ◌++◌, arith,
  length, All, Bool-cases,
}
use ssh_access.Prelude.Bytes.{Bytes, bytes_equal}
use ssh_access.Store.Audit.{
  Formats, AuditRecord, last_hash, verified, fields, compute_record_hash, canonical_detail,
  row_hash, verify_audit_chain, write_fields,
}
use ssh_access.Prelude.Bytes.{bytes_equal_iff}
use ssh_access.Store.Audit.Encoding.{IsShort, write_fields_inj}
use ssh_access.Store.Audit.Chain.{Linked, Chain, Chain-append, verify_iff}

fields_eq :
    (a b c d e g a' b' c' d' e' g' : Bytes)
    → (a ∷ b ∷ c ∷ d ∷ e ∷ g ∷ []) ≡ (a' ∷ b' ∷ c' ∷ d' ∷ e' ∷ g' ∷ [])
    → (a ≡ a') × (b ≡ b') × (c ≡ c') × (d ≡ d') × (e ≡ e') × (g ≡ g')
fields_eq a b c d e g a' b' c' d' e' g' p = (cc, cc, cc, cc, cc, cc)

-- The last `n` rows of a list that has as many.
last_rows :
    (n : ℕ) (xs : List AuditRecord)
    → n ≤ length xs
    → (zs : List AuditRecord) × (ys : List AuditRecord) × (xs ≡ zs ++ ys) × (length ys ≡ n)
last_rows n [] h = ([], [], refl, ground arith)
last_rows n (x ∷ xs) h = elim (Bool-cases (leb n (length xs))) [
  | inl e ↦
      let (zs, ys, split, count) = last_rows n xs (ground arith) in
      (x ∷ zs, ys, ap (λ l. x ∷ l) split, count)
  | inr e ↦ ([], x ∷ xs, refl, ground arith)
]

module _ (f : Formats) where
  -- Two different texts with one digest.
  abbrev pub Collision : Type 0
  Collision = (a : Bytes) × (b : Bytes) × (a ≢ b) × (f.sha256 a ≡ f.sha256 b)

  -- The fields that are hashed for a row are shorter than 2^64 bytes.
  abbrev pub AreShort : AuditRecord → Type 0
  AreShort r =
      (canon : Bytes)
      → canonical_detail f r.detail ≡ some canon
      → All IsShort (fields f r.prev_hash r.at r.actor r.event_type r.target canon)

  -- Two rows say the same.
  pub record SameRow (r s : AuditRecord) : Type 0 where
    pub stamp : f.stamp r.at ≡ f.stamp s.at
    pub actor : f.text_bytes r.actor ≡ f.text_bytes s.actor
    pub event_type : f.text_bytes r.event_type ≡ f.text_bytes s.event_type
    pub target : f.text_bytes r.target ≡ f.text_bytes s.target
    pub detail : canonical_detail f r.detail ≡ canonical_detail f s.detail
    pub record_hash : r.record_hash ≡ s.record_hash

  -- Rows with one hash say the same and follow rows with one hash, or the digest has a collision.
  same_row :
      (p q : Bytes) (r s : AuditRecord)
      → AreShort r
      → AreShort s
      → Linked f p r
      → Linked f q s
      → r.record_hash ≡ s.record_hash
      → (SameRow r s × (p ≡ q)) ⊎ Collision
  unfolding row_hash compute_record_hash fields
  same_row p q r s hr hs lr ls e =
      let xs = fields f r.prev_hash r.at r.actor r.event_type r.target lr.canon in
      let ys = fields f s.prev_hash s.at s.actor s.event_type s.target ls.canon in
      let digests : f.sha256 (write_fields xs) ≡ f.sha256 (write_fields ys) =
        lr.sealed ∙ e ∙ sym ls.sealed in
      elim (Bool-cases (bytes_equal (write_fields xs) (write_fields ys))) [
        | inl k ↦
            let same =
              write_fields_inj xs ys refl (hr lr.canon lr.readable) (hs ls.canon ls.readable)
                ((bytes_equal_iff (write_fields xs) (write_fields ys)).0 k) in
            let (prev, stamp, actor, kind, target, detail) =
              fields_eq _ _ _ _ _ _ _ _ _ _ _ _ same in
            inl (
              record {
                stamp = stamp;
                actor = actor;
                event_type = kind;
                target = target;
                detail = lr.readable ∙ ap some detail ∙ sym ls.readable;
                record_hash = e;
              },
              sym lr.follows ∙ prev ∙ ls.follows,
            )
        | inr k ↦ inr (
          write_fields xs,
          write_fields ys,
          (λ u. absurd (ground (arith, (bytes_equal_iff (write_fields xs) (write_fields ys)).1 u))),
          digests,
        )
      ]

  abbrev pub SameRows : List AuditRecord → List AuditRecord → Type 0
  SameRows [] [] = Unit
  SameRows (r ∷ rs) (s ∷ ss) = SameRow r s × SameRows rs ss
  SameRows rs ss = ⊥

  same_rows :
      (p q : Bytes) (rs ss : List AuditRecord)
      → length rs ≡ length ss
      → All AreShort rs
      → All AreShort ss
      → Chain f p rs
      → Chain f q ss
      → last_hash p rs ≡ last_hash q ss
      → (SameRows rs ss × (p ≡ q)) ⊎ Collision
  unfolding last_hash
  same_rows p q [] [] n hr hs cr cs e = inl (tt, e)
  same_rows p q [] (s ∷ ss) n hr hs cr cs e = absurd (omega (arith, n))
  same_rows p q (r ∷ rs) [] n hr hs cr cs e = absurd (omega (arith, n))
  same_rows p q (r ∷ rs) (s ∷ ss) n (hr, hrs) (hs, hss) (lr, cr) (ls, cs) e =
      elim (same_rows r.record_hash s.record_hash rs ss (omega (arith, n)) hrs hss cr cs e) [
        | inr c ↦ inr c
        | inl (rest, hashes) ↦ elim (same_row p q r s hr hs lr ls hashes) [
          | inr c ↦ inr c
          | inl (first, before) ↦ inl ((first, rest), before)
        ]
      ]

  last_hash-digest :
      (p : Bytes) (r : AuditRecord) (rs : List AuditRecord)
      → Chain f p (r ∷ rs)
      → (b : Bytes) × (last_hash p (r ∷ rs) ≡ f.sha256 b)
  unfolding last_hash row_hash compute_record_hash
  last_hash-digest p r [] (l, c) =
      (write_fields (fields f r.prev_hash r.at r.actor r.event_type r.target l.canon), sym l.sealed)
  last_hash-digest p r (s ∷ rs) (l, c) = last_hash-digest r.record_hash s rs c

  All-suffix : (zs ys : List AuditRecord) → All AreShort (zs ++ ys) → All AreShort ys
  All-suffix [] ys a = a
  All-suffix (z ∷ zs) ys (h, a) = All-suffix zs ys a

  last_hash-append :
      (p : Bytes) (zs ys : List AuditRecord)
      → last_hash p (zs ++ ys) ≡ last_hash (last_hash p zs) ys
  unfolding last_hash
  last_hash-append p [] ys = refl
  last_hash-append p (z ∷ zs) ys = last_hash-append z.record_hash zs ys

  module _ (full : (b : Bytes) → f.sha256 b ≢ []) where
    -- A log cannot be continued from its middle as if from its beginning.
    no_prefix : (zs : List AuditRecord) → Chain f [] zs → last_hash [] zs ≡ [] → zs ≡ []
    no_prefix [] c e = refl
    no_prefix (z ∷ zs) c e = let (b, d) = last_hash-digest [] z zs c in absurd (full b (sym d ∙ e))

    longer_same :
        (rs ss : List AuditRecord)
        → length ss ≤ length rs
        → All AreShort rs
        → All AreShort ss
        → Chain f [] rs
        → Chain f [] ss
        → last_hash [] rs ≡ last_hash [] ss
        → SameRows rs ss ⊎ Collision
    longer_same rs ss n hr hs cr cs e =
        let (zs, ys, split, count) = last_rows (length ss) rs n in
        let (cz, cy) = (Chain-append f [] zs ys).0 (subst (Chain f []) split cr) in
        elim (same_rows (last_hash [] zs) [] ys ss count
          (All-suffix zs ys (subst (All AreShort) split hr)) hs cy cs
          (sym (last_hash-append [] zs ys) ∙ ap (last_hash []) (sym split) ∙ e)) [
            | inr c ↦ inr c
            | inl (same, start) ↦
                let none_before = no_prefix zs cz start in
                inl (subst (λ l. SameRows l ss) (sym (split ∙ ap (λ l. l ++ ys) none_before)) same)
          ]

    same_sym : (rs ss : List AuditRecord) → SameRows rs ss → SameRows ss rs
    same_sym [] [] a = tt
    same_sym [] (s ∷ ss) a = absurd a
    same_sym (r ∷ rs) [] a = absurd a
    same_sym (r ∷ rs) (s ∷ ss) (h, a) = (
      record {
        stamp = sym h.stamp;
        actor = sym h.actor;
        event_type = sym h.event_type;
        target = sym h.target;
        detail = sym h.detail;
        record_hash = sym h.record_hash;
      },
      same_sym rs ss a,
    )

    -- Where no digest is empty, two logs that both verify and end with the same hash have as many rows, with
    -- the same times, actors, events, targets, details and hashes in their order, or there are
    -- two different texts with one digest.
    pub verified-SameRows :
        (rs ss : List AuditRecord) (k m : ℕ)
        → All AreShort rs
        → All AreShort ss
        → verify_audit_chain f rs ≡ verified k
        → verify_audit_chain f ss ≡ verified m
        → last_hash [] rs ≡ last_hash [] ss
        → SameRows rs ss ⊎ Collision
    verified-SameRows rs ss k m hr hs vr vs e =
        let (cr, nr) = (verify_iff f rs k).0 vr in
        let (cs, ns) = (verify_iff f ss m).0 vs in
        elim (Bool-cases (leb (length ss) (length rs))) [
          | inl h ↦ longer_same rs ss (ground arith) hr hs cr cs e
          | inr h ↦ elim (longer_same ss rs (ground arith) hs hr cs cr (sym e)) [
            | inl same ↦ inl (same_sym ss rs same)
            | inr c ↦ inr c
          ]
        ]
