-- ===== src/Samples/Certificates.antt =====
-- Runs of the certificate issuer of internal/ca.
use ssh_access.Prelude.{
  ℕ, String, ◌≡◌, refl, ap, true, false, not, ◌&&◌, some, [], ◌∷◌, arith, contains, Distinct,
  Sorted, is_empty, sort, ◌==◌, ◌+◌, ◌*◌, ◌≤◌,
}
use ssh_access.Prelude.Int.{ℤ, pos, ◌+ℤ◌, ◌-ℤ◌, ◌≤ℤ◌}
use ssh_access.Ca.Issuer.{
  Permissions, IssueParams, Certificate, Authority, Issuer, ok, second, minute, with_clock_skew,
  new_issuer, issue, unix_seconds, dedupe_non_empty, default_issuer,
}
use ssh_access.Ca.Issuer.Principals.{issue_principals}
use ssh_access.Ca.Issuer.Lifetime.{issue_lifetime}
use ssh_access.Ca.Serial.{
  counter_allocator, issue_all, serials_of, Increasing, issue_all-Increasing,
}

-- An authority that signs everything, over keys named by strings.
abbrev pub signing : Authority String
signing = record {
  public_key = "ca";
  sign_certificate = λ c. some (record { nonce = "n"; signature_key = "ca"; signature = c.key_id });
}

abbrev five_minutes : ℤ
five_minutes = pos (5 * minute)

abbrev issuer : Issuer String ℕ
issuer = default_issuer signing counter_allocator five_minutes

abbrev shell_only : Permissions
shell_only = record {
  pty = true;
  port_forwarding = false;
  agent_forwarding = false;
  x11_forwarding = false;
}

abbrev pub request : IssueParams String
request = record {
  user_public_key = some "eph";
  principals = "web" ∷ "" ∷ "db" ∷ "web" ∷ [];
  ttl = pos 0;
  source_address = "10.0.0.1";
  key_id = "u=alice";
  permissions = shell_only;
}

abbrev pub noon : ℤ
noon = pos (1000000 * second)

abbrev pub issued : Certificate String
issued = record {
  key = "eph";
  serial = 8;
  key_id = "u=alice";
  valid_principals = "db" ∷ "web" ∷ [];
  valid_after = 999940;
  valid_before = 1000300;
  critical_options = ("source-address", "10.0.0.1") ∷ [];
  extensions = ("permit-pty", "") ∷ [];
  seal = some (record { nonce = "n"; signature_key = "ca"; signature = "u=alice" });
}

issue_run : issue issuer request noon 7 ≡ (ok issued, 8)
unfolding issue sort dedupe_non_empty contains ◌-ℤ◌ ◌+ℤ◌
issue_run = refl

issue_ok : (issue issuer request noon 7).0 ≡ ok issued
issue_ok = ap (λ r. r.0) issue_run

made :
    new_issuer
      (some signing)
      (some counter_allocator)
      five_minutes
      (with_clock_skew (pos minute) ∷ [])
    ≡ ok issuer
unfolding new_issuer
made = refl

issue_principals_example :
    ((a : String)
      → contains issued.valid_principals a ≡ (contains request.principals a && not (a == "")))
    × Distinct issued.valid_principals
    × Sorted issued.valid_principals
    × (is_empty issued.valid_principals ≡ false)
issue_principals_example = issue_principals issuer request noon 7 issued issue_ok

issue_lifetime_example :
    (issued.valid_after ≤ unix_seconds noon)
    × (unix_seconds noon ≤ issued.valid_before)
    × (issued.valid_before ≤ unix_seconds (noon +ℤ five_minutes))
    × (unix_seconds (noon -ℤ pos minute) ≤ issued.valid_after)
    × (pos (issued.valid_before * second)
        ≤ℤ pos ((issued.valid_after + 1) * second) +ℤ (five_minutes +ℤ pos minute))
issue_lifetime_example =
    issue_lifetime (some signing) (some counter_allocator) five_minutes
      (with_clock_skew (pos minute) ∷ []) issuer request noon 7 issued made issue_ok

issue_all-Increasing_example :
    Increasing 7 (serials_of (issue_all issuer ((request, noon) ∷ (request, noon) ∷ []) 7))
issue_all-Increasing_example =
    issue_all-Increasing issuer refl ((request, noon) ∷ (request, noon) ∷ []) 7 (omega arith)
