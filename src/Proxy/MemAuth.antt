-- ===== src/Proxy/MemAuth.antt =====
-- internal/proxy/memauth.go: keys against a file of authorized users. Reading the file and
-- ssh.ParseAuthorizedKey are arguments: the parser gives the marshaled key, the comment and what is left
-- of the text.
pub mod Loaded
use ssh_access.Prelude.{
  ℕ, zero, suc, ◌<◌, ◌≡◌, String, Bool, ◌==◌, Option, none, some, List, [], ◌∷◌, length, is_empty,
  if◌then◌else◌, lookup, put,
}
use ssh_access.Proxy.Types.{Identity, subject_user}

-- MemoryAuthenticator: the map byKey
abbrev pub MemoryAuthenticator : Type 0
MemoryAuthenticator = List (String × Identity)

abbrev pub new_memory_authenticator : MemoryAuthenticator
new_memory_authenticator = []

-- Add
unfoldable pub add : String → Identity → MemoryAuthenticator → MemoryAuthenticator
add key id m = put key id m

-- AuthenticatePublicKey; `none` is ErrUnauthorized.
unfoldable pub authenticate_public_key : MemoryAuthenticator → String → Option Identity
authenticate_public_key m key = lookup key m

-- Len
unfoldable pub len : MemoryAuthenticator → ℕ
len m = length m

abbrev pub Text : Type 0
Text = List ℕ

abbrev pub KeyParser : Type 0
KeyParser = Text → Option (String × String × Text)

-- What the parser leaves is shorter than what it was given.
abbrev pub Shrinks : KeyParser → Type 0
Shrinks parse =
    (text rest : Text) (key comment : String)
    → parse text ≡ some (key, comment, rest)
    → length rest < length text

pub data Load : Type 0 where
  loaded : MemoryAuthenticator → Load
  missing_comment : Load
  unreadable : Load
  out_of_fuel : Load

abbrev pub named : String → Identity
named comment = record { subject = subject_user; id = comment; label = comment }

-- The loop over the rest of the file, with fuel.
unfoldable pub load_loop : KeyParser → ℕ → Text → MemoryAuthenticator → Load
unfolding add
load_loop parse zero rest m = out_of_fuel
load_loop parse (suc fuel) rest m = if is_empty rest then loaded m else (elim (parse rest) [
  | none ↦ loaded m
  | some (key, comment, remaining) ↦
      let next = load_loop parse fuel remaining (add key (named comment) m) in
      if comment == "" then missing_comment else next
])

-- LoadAuthorizedUsers; the fuel is one more than the length of the file.
unfoldable pub load_authorized_users : KeyParser → Option Text → Load
unfolding load_loop
load_authorized_users parse none = unreadable
load_authorized_users parse (some text) =
    load_loop parse (suc (length text)) text new_memory_authenticator
