-- ===== src/Ca/Issuer.antt =====
-- internal/ca/issuer.go. A time is the number of nanoseconds since the epoch and a duration a number
-- of nanoseconds, both in ℤ. A Go map is a list of pairs with distinct keys. The authority and
-- the serial allocator are interfaces; the allocator's state is passed through.
pub mod Principals
pub mod Lifetime
pub mod Extensions
pub mod Outcomes
use ssh_access.Prelude.{
  ◌≡◌, refl, ◌⊎◌, inl, inr, ℕ, ◌*◌, ◌/◌, String, Bool, true, false, not, ◌||◌, Option, none, some,
  List, [], ◌∷◌, ◌++◌, ◌==◌, contains, is_empty, sort, if◌then◌else◌,
}
use ssh_access.Prelude.Int.{ℤ, pos, negsuc, ◌+ℤ◌, ◌-ℤ◌, leb_ℤ, ltb_ℤ}

-- The errors of the file, one for each message.
pub data Error : Type 0 where
  nil_authority nil_serials bad_max_ttl bad_clock_skew : Error
  nil_user_key no_principal no_key_id serial_failed sign_failed : Error

pub data Result {ℓ} (A : Type ℓ) : Type ℓ where
  ok : A → Result A
  err : Error → Result A

pub Result-cases {ℓ} :
    {A : Type ℓ} (r : Result A) → ((a : A) × (r ≡ ok a)) ⊎ ((e : Error) × (r ≡ err e))
Result-cases (ok a) = inl (a, refl)
Result-cases (err e) = inr (e, refl)

abbrev pub second : ℕ
second = 1000000000

abbrev pub minute : ℕ
minute = 60 * second

abbrev pub ext_pty : String
ext_pty = "permit-pty"

abbrev pub ext_port_forwarding : String
ext_port_forwarding = "permit-port-forwarding"

abbrev pub ext_agent_forwarding : String
ext_agent_forwarding = "permit-agent-forwarding"

abbrev pub ext_x11_forwarding : String
ext_x11_forwarding = "permit-X11-forwarding"

abbrev pub opt_source_address : String
opt_source_address = "source-address"

pub record Permissions : Type 0 where
  pub pty : Bool
  pub port_forwarding : Bool
  pub agent_forwarding : Bool
  pub x11_forwarding : Bool

pub record IssueParams (Key : Type 0) : Type 0 where
  pub user_public_key : Option Key
  pub principals : List String
  pub ttl : ℤ
  pub source_address : String
  pub key_id : String
  pub permissions : Permissions

-- What `SignCert` fills in: the nonce, the authority's key and the signature.
pub record Seal (Key : Type 0) : Type 0 where
  pub nonce : String
  pub signature_key : Key
  pub signature : String

-- ssh.Certificate, whose CertType is UserCert throughout.
pub record Certificate (Key : Type 0) : Type 0 where
  pub key : Key
  pub serial : ℕ
  pub key_id : String
  pub valid_principals : List String
  pub valid_after : ℕ
  pub valid_before : ℕ
  pub critical_options : List (String × String)
  pub extensions : List (String × String)
  pub seal : Option (Seal Key)

-- signer.Authority; `none` is an error of the signing backend.
pub record Authority (Key : Type 0) : Type 0 where
  pub public_key : Key
  pub sign_certificate : Certificate Key → Option (Seal Key)

-- ca.SerialAllocator; `none` is an error of its backend.
pub record SerialAllocator (S : Type 0) : Type 0 where
  pub next : S → Option ℕ × S

-- `clock` is what `i.now()` reads at a given time: the identity for time.Now.
pub record Issuer (Key S : Type 0) : Type 0 where
  pub authority : Authority Key
  pub serials : SerialAllocator S
  pub max_ttl : ℤ
  pub clock_skew : ℤ
  pub clock : ℤ → ℤ

-- ca.Option: the two functions that set a field of the issuer.
pub data IssuerOption : Type 0 where
  with_clock : (ℤ → ℤ) → IssuerOption
  with_clock_skew : ℤ → IssuerOption

-- The loop of `dedupeNonEmpty`; `out` holds what `seen` holds.
dedupe_loop : List String → List String → List String
dedupe_loop out [] = out
dedupe_loop out (s ∷ rest) =
    dedupe_loop (if s == "" || contains out s then out else out ++ s ∷ []) rest

unfoldable pub dedupe_non_empty : List String → List String
unfolding dedupe_loop
dedupe_non_empty xs = sort (dedupe_loop [] xs)

-- time.Time.Unix rounds down; a negative result is clamped to zero.
unfoldable pub unix_seconds : ℤ → ℕ
unix_seconds (pos n) = n / second
unix_seconds (negsuc n) = 0

abbrev pub set_if : Bool → String → List (String × String)
set_if b name = if b then (name, "") ∷ [] else []

pub extensions_of : Permissions → List (String × String)
extensions_of p =
    set_if p.pty ext_pty
    ++ (set_if p.port_forwarding ext_port_forwarding
        ++ (set_if p.agent_forwarding ext_agent_forwarding
            ++ set_if p.x11_forwarding ext_x11_forwarding))

pub critical_options_of : String → List (String × String)
critical_options_of addr = if addr == "" then [] else (opt_source_address, addr) ∷ []

module _ {Key S : Type 0} where
  pub apply_option : IssuerOption → Issuer Key S → Issuer Key S
  apply_option (with_clock now) i = record i { clock = now }
  apply_option (with_clock_skew d) i = record i { clock_skew = d }

  -- The loop over the options in `NewIssuer`.
  apply_options : List IssuerOption → Issuer Key S → Issuer Key S
  unfolding apply_option
  apply_options [] i = i
  apply_options (o ∷ opts) i = apply_options opts (apply_option o i)

  abbrev pub default_issuer : Authority Key → SerialAllocator S → ℤ → Issuer Key S
  default_issuer a s max_ttl = record {
    authority = a;
    serials = s;
    max_ttl = max_ttl;
    clock_skew = pos minute;
    clock = λ t. t;
  }

  check_skew : Issuer Key S → Result (Issuer Key S)
  check_skew i = if ltb_ℤ i.clock_skew (pos 0) then err bad_clock_skew else ok i

  -- NewIssuer; `none` is a nil interface.
  unfoldable pub new_issuer :
      Option (Authority Key)
      → Option (SerialAllocator S)
      → ℤ
      → List IssuerOption
      → Result (Issuer Key S)
  unfolding apply_options check_skew
  new_issuer none serials max_ttl opts = err nil_authority
  new_issuer (some a) none max_ttl opts = err nil_serials
  new_issuer (some a) (some s) max_ttl opts =
      if leb_ℤ max_ttl (pos 0)
      then err bad_max_ttl
      else check_skew (apply_options opts (default_issuer a s max_ttl))

  pub clamp_ttl : Issuer Key S → ℤ → ℤ
  clamp_ttl i ttl = if leb_ℤ ttl (pos 0) || ltb_ℤ i.max_ttl ttl then i.max_ttl else ttl

  -- The certificate that is handed to the authority.
  pub build : Issuer Key S → IssueParams Key → Key → List String → ℕ → ℤ → Certificate Key
  unfolding clamp_ttl extensions_of critical_options_of unix_seconds
  build i p key principals serial now = record {
    key = key;
    serial = serial;
    key_id = p.key_id;
    valid_principals = principals;
    valid_after = unix_seconds (now -ℤ i.clock_skew);
    valid_before = unix_seconds (now +ℤ clamp_ttl i p.ttl);
    critical_options = critical_options_of p.source_address;
    extensions = extensions_of p.permissions;
    seal = none;
  }

  sign : Issuer Key S → Certificate Key → Result (Certificate Key)
  sign i c = elim (i.authority.sign_certificate c) [
    | none ↦ err sign_failed
    | some seal ↦ ok (record c { seal = some seal })
  ]

  -- `Issue` from the allocation of the serial number on.
  allocate_and_sign : Issuer Key S → IssueParams Key → ℤ → Key → S → Result (Certificate Key) × S
  unfolding build sign
  allocate_and_sign i p time key s =
      let (serial, s') = i.serials.next s in
      (
        elim serial [
          | none ↦ err serial_failed
          | some n ↦ sign i (build i p key (dedupe_non_empty p.principals) n (i.clock time))
        ],
        s',
      )

  -- Issue at the given time.
  unfoldable pub issue : Issuer Key S → IssueParams Key → ℤ → S → Result (Certificate Key) × S
  unfolding allocate_and_sign
  issue i p time s = elim p.user_public_key [
    | none ↦ (err nil_user_key, s)
    | some key ↦
        if is_empty (dedupe_non_empty p.principals)
        then (err no_principal, s)
        else if p.key_id == ""
        then (err no_key_id, s)
        else allocate_and_sign i p time key s
  ]
