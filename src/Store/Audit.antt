-- ===== src/Store/Audit.antt =====
-- internal/store/audit.go: the hash-chained audit log. The table is the list of its rows in the order
-- of `seq`. An append runs under a lock in one transaction, so that it is one step here. SHA-256 and the
-- formats of the standard library are the fields of `Formats`. A byte string is a list of numbers; a
-- nil slice is the empty one, which `bytes.Equal` and `writeField` do not tell apart.
pub mod Encoding
pub mod Chain
pub mod Append
pub mod Tampering
use ssh_access.Prelude.{
  ℕ, suc, ◌+◌, ◌/◌, ◌%◌, ◌^◌, String, Bool, true, false, Option, none, some, List, [], ◌∷◌, ◌++◌,
  length, if◌then◌else◌, eqb, ◌&&◌,
}
use ssh_access.Prelude.Bytes.{Bytes, bytes_equal}

-- A `map[string]string`.
abbrev pub Detail : Type 0
Detail = List (String × String)

pub record Formats : Type 0 where
  -- sha256.Sum256
  pub sha256 : Bytes → Bytes
  -- []byte(s)
  pub text_bytes : String → Bytes
  -- Format(time.RFC3339Nano) of a time in UTC, given in microseconds
  pub stamp : ℕ → Bytes
  -- json.Marshal and json.Unmarshal of a map[string]string
  pub marshal : Detail → Bytes
  pub unmarshal : Bytes → Option Detail
  -- the text that PostgreSQL gives back for a jsonb column in which the text was stored
  pub jsonb : Bytes → Bytes

pub record AuditEvent : Type 0 where
  pub actor : String
  pub event_type : String
  pub target : String
  pub detail : Detail

-- A row of audit_log; `at` is in microseconds.
pub record AuditRecord : Type 0 where
  pub at : ℕ
  pub actor : String
  pub event_type : String
  pub target : String
  pub detail : Bytes
  pub prev_hash : Bytes
  pub record_hash : Bytes

-- binary.BigEndian.PutUint64
unfoldable pub put_uint64 : ℕ → Bytes
put_uint64 n =
    (n / 2 ^ 56 % 256)
    ∷ (n / 2 ^ 48 % 256)
    ∷ (n / 2 ^ 40 % 256)
    ∷ (n / 2 ^ 32 % 256)
    ∷ (n / 2 ^ 24 % 256)
    ∷ (n / 2 ^ 16 % 256)
    ∷ (n / 2 ^ 8 % 256)
    ∷ (n % 256)
    ∷ []

-- What `writeField` writes to the hash.
unfoldable pub write_field : Bytes → Bytes
unfolding put_uint64
write_field b = put_uint64 (length b) ++ b

unfoldable pub write_fields : List Bytes → Bytes
unfolding write_field
write_fields [] = []
write_fields (b ∷ bs) = write_field b ++ write_fields bs

-- SELECT record_hash FROM audit_log ORDER BY seq DESC LIMIT 1, after a row with hash `prev`
unfoldable pub last_hash : Bytes → List AuditRecord → Bytes
last_hash prev [] = prev
last_hash prev (r ∷ rs) = last_hash r.record_hash rs

pub data Verification : Type 0 where
  verified broken_chain bad_detail tampered_record : ℕ → Verification

module _ (f : Formats) where
  unfoldable pub fields : Bytes → ℕ → String → String → String → Bytes → List Bytes
  fields prev at actor event_type target detail_json =
      prev
      ∷ f.stamp at
      ∷ f.text_bytes actor
      ∷ f.text_bytes event_type
      ∷ f.text_bytes target
      ∷ detail_json
      ∷ []

  unfoldable pub compute_record_hash : Bytes → ℕ → String → String → String → Bytes → Bytes
  unfolding fields
  compute_record_hash prev at actor event_type target detail_json =
      f.sha256 (write_fields (fields prev at actor event_type target detail_json))

  -- AppendAudit at the time `now`, in nanoseconds.
  unfoldable pub append_audit : AuditEvent → ℕ → List AuditRecord → List AuditRecord
  unfolding compute_record_hash
  append_audit ev now table =
      let prev = last_hash [] table in
      let at = now / 1000 in
      let detail_json = f.marshal ev.detail in
      table
      ++ record {
        at = at;
        actor = ev.actor;
        event_type = ev.event_type;
        target = ev.target;
        detail = f.jsonb detail_json;
        prev_hash = prev;
        record_hash = compute_record_hash prev at ev.actor ev.event_type ev.target detail_json;
      }
        ∷ []

  -- canonicalDetail; an empty text stands for the empty map.
  unfoldable pub canonical_detail : Bytes → Option Bytes
  canonical_detail [] = some (f.marshal [])
  canonical_detail (b ∷ bs) = elim (f.unmarshal (b ∷ bs)) [
    | none ↦ none
    | some m ↦ some (f.marshal m)
  ]

  unfoldable pub row_hash : AuditRecord → Bytes → Bytes
  unfolding compute_record_hash
  row_hash r canon = compute_record_hash r.prev_hash r.at r.actor r.event_type r.target canon

  -- The loop of VerifyAuditChain.
  unfoldable pub verify_loop : Bytes → ℕ → List AuditRecord → Verification
  unfolding canonical_detail row_hash
  verify_loop prev n [] = verified n
  verify_loop prev n (r ∷ rs) =
      let rest = verify_loop r.record_hash (n + 1) rs in
      if bytes_equal r.prev_hash prev
      then (elim (canonical_detail r.detail) [
        | none ↦ bad_detail n
        | some canon ↦
            if bytes_equal (row_hash r canon) r.record_hash then rest else tampered_record n
      ])
      else broken_chain n

  unfoldable pub verify_audit_chain : List AuditRecord → Verification
  unfolding verify_loop
  verify_audit_chain table = verify_loop [] 0 table
