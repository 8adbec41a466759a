-- ===== src/Samples/AuditLog.antt =====
-- Runs of the audit log of internal/store/audit.go.
use Prim.Native.Char.{code}
use mathlib.Core.Path.{subst}
use ssh_access.Prelude.{
  String, ◌≡◌, ◌↔◌, ◌⊎◌, All, arith, refl, ap, some, none, Option, List, [], ◌∷◌, length,
}
use ssh_access.Prelude.Bytes.{Bytes}
use ssh_access.Store.Audit.{
  Detail, Formats, AuditEvent, AuditRecord, verified, verify_audit_chain, append_audit, fields,
  canonical_detail, last_hash,
}
use ssh_access.Store.Audit.Chain.{Chain, verify_iff}
use ssh_access.Store.Audit.Encoding.{IsShort}
use ssh_access.Store.Audit.Tampering.{AreShort, SameRows, Collision, verified-SameRows}
use ssh_access.Store.Audit.Append.{ReadsBack, append_all, append_all-verified}

abbrev text : String → Bytes
text String.[] = []
text (String.◌∷◌ c s) = code c ∷ text s

abbrev entry_marks : Detail → Bytes
entry_marks [] = []
entry_marks (d ∷ ds) = 0 ∷ entry_marks ds

abbrev blank : Bytes → Detail
blank [] = []
blank (b ∷ bs) = ("", "") ∷ blank bs

abbrev read_marks : Bytes → Option Detail
read_marks [] = none
read_marks (b ∷ bs) = some (blank bs)

-- A digest that keeps everything and is never empty, and texts of maps that keep the number of entries.
abbrev plain : Formats
plain = record {
  sha256 = λ b. 1 ∷ b;
  text_bytes = text;
  stamp = λ n. n ∷ [];
  marshal = λ d. 91 ∷ entry_marks d;
  unmarshal = read_marks;
  jsonb = λ b. b;
}

marks_again : (d : Detail) → entry_marks (blank (entry_marks d)) ≡ entry_marks d
marks_again [] = refl
marks_again (x ∷ d) = ap (λ b. 0 ∷ b) (marks_again d)

plain_reads : ReadsBack plain
plain_reads = record {
  read = λ d. blank (entry_marks d);
  stored = λ d. refl;
  canonical = λ d. ap (λ b. 91 ∷ b) (marks_again d);
  not_empty = λ d e. cc;
}

abbrev login : AuditEvent
login = record {
  actor = "break-glass:root";
  event_type = "auth.login";
  target = "local";
  detail = ("source_ip", "10.0.0.9") ∷ [];
}

abbrev denial : AuditEvent
denial = record { actor = "alice"; event_type = "authz.denied"; target = "web01"; detail = [] }

abbrev one_row : List AuditRecord
one_row = append_audit plain login 7000 []

verify_iff_example :
    (verify_audit_chain plain one_row ≡ verified 1)
    ↔ (Chain plain [] one_row × (1 ≡ length one_row))
verify_iff_example = verify_iff plain one_row 1

empty_verified : verify_audit_chain plain [] ≡ verified 0
empty_verified = (verify_iff plain [] 0).1 (tt, refl)

one_verified : verify_audit_chain plain one_row ≡ verified 1
unfolding append_audit append_all
one_verified = append_all-verified plain plain_reads ((login, 7000) ∷ []) [] 0 empty_verified

one_short : All (AreShort plain) one_row
unfolding append_audit fields canonical_detail last_hash
one_short = (
  λ canon e.
      let same : 91 ∷ 0 ∷ [] ≡ canon = ground arith in
      (
        omega arith,
        (
          omega arith,
          (omega arith, (omega arith, (omega arith, (subst IsShort same (omega arith), tt)))),
        ),
      ),
  tt,
)

verified-SameRows_example : SameRows plain one_row one_row ⊎ Collision plain
verified-SameRows_example =
    verified-SameRows plain (λ b e. cc) one_row one_row 1 1 one_short one_short one_verified
      one_verified refl
