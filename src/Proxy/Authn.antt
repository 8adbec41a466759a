-- ===== src/Proxy/Authn.antt =====
-- internal/proxy/dbauth.go: keys against the database; the PublicKeyCallback of internal/proxy/server.go;
-- and storeKeyLookup of cmd/broker/main.go. What x/crypto/ssh marshals a key to is an argument.
pub mod Owner
pub mod Barred
pub mod Enrolled
use ssh_access.Prelude.{String, Bool, Option, none, some, List, [], ◌∷◌, if◌then◌else◌, trim_space}
use ssh_access.Proxy.Types.{Identity, SubjectType}
use ssh_access.Store.Keys.{AuthnIdentity, Accounts, authn_by_key}

pub record ResolvedIdentity : Type 0 where
  pub subject : SubjectType
  pub id : String
  pub label : String
  pub active : Bool

-- `none` is an error of the lookup, and `some none` a key that is registered to no one.
abbrev pub KeyLookup : Type 0
KeyLookup = String → Option (Option ResolvedIdentity)

-- AuthorizedKeyLine
unfoldable pub authorized_key_line : {Key : Type 0} → (Key → String) → Key → String
authorized_key_line marshal_authorized_key key = trim_space (marshal_authorized_key key)

abbrev active_identity : Option (Option ResolvedIdentity) → Option Identity
active_identity none = none
active_identity (some none) = none
active_identity (some (some id)) =
    if id.active then some (record { subject = id.subject; id = id.id; label = id.label }) else none

-- (*DBAuthenticator).AuthenticatePublicKey; `none` is ErrUnauthorized.
unfoldable pub authenticate_public_key : KeyLookup → String → Option Identity
authenticate_public_key lookup_key line = active_identity (lookup_key line)

abbrev pub identity_extensions : Identity → List (String × String)
identity_extensions id =
    ("subject_type", id.subject) ∷ ("subject_id", id.id) ∷ ("subject_label", id.label) ∷ []

-- The PublicKeyCallback over an Authenticator: the extensions of the permissions.
unfoldable pub public_key_callback :
    (String → Option Identity) → String → Option (List (String × String))
public_key_callback authenticate line = elim (authenticate line) [
  | none ↦ none
  | some id ↦ some (identity_extensions id)
]

abbrev resolved_key : Option AuthnIdentity → Option (Option ResolvedIdentity)
resolved_key none = some none
resolved_key (some a) =
    some (some (record { subject = a.subject_type; id = a.id; label = a.label; active = a.active }))

-- storeKeyLookup, whose query succeeds; a missing key is no error.
unfoldable pub store_key_lookup : Accounts → KeyLookup
store_key_lookup db line = resolved_key (authn_by_key line db)
