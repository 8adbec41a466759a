-- ===== src/Secrets/FileStore/Shelf.antt =====
-- internal/secrets/filestore.go: requests to the store, the dictionary that a caller sees, and the names of
-- the files.
use ssh_access.Prelude.{
  arith, ◌≡◌, sym, ap, ◌∙◌, false, Option, none, some, List, [], ◌∷◌, length, All, is_empty, inl,
  inr, if◌then◌else◌, Bool-cases,
}
use ssh_access.Prelude.Bytes.{Bytes, bytes_equal, bytes_equal_iff}
use ssh_access.Prelude.Base64.{url, decode, IsByte, decode-encode}
use ssh_access.Secrets.FileStore.{Aead, Disk, Result, ok, err, not_found, file_name, put, delete}

-- What is sealed is unsealed under the same nonce and the same additional data.
abbrev pub Unseals : Aead → Type 0
Unseals aead =
    (nonce plain ad : Bytes) → aead.unseal nonce (aead.seal nonce plain ad) ad ≡ some plain

-- A request to the store; `none` is a nonce that could not be read.
pub data Request : Type 0 where
  put_secret : Bytes → Bytes → Option Bytes → Request
  delete_secret : Bytes → Request

abbrev pub after : Result Disk → Disk → Disk
after (ok disk') disk = disk'
after (err fault) disk = disk

abbrev pub serve : Aead → Request → Disk → Disk
serve aead (put_secret ref secret nonce) disk = after (put aead ref secret nonce disk) disk
serve aead (delete_secret ref) disk = after (delete ref disk) disk

abbrev pub serve_all : Aead → List Request → Disk → Disk
serve_all aead [] disk = disk
serve_all aead (q ∷ qs) disk = serve_all aead qs (serve aead q disk)

-- The refs are byte strings and not empty, and a nonce has the size of the cipher.
abbrev pub IsRef : Bytes → Type 0
IsRef ref = (is_empty ref ≡ false) × All IsByte ref

abbrev pub IsRequest : Aead → Request → Type 0
IsRequest aead (put_secret ref secret none) = IsRef ref
IsRequest aead (put_secret ref secret (some nonce)) = IsRef ref × (length nonce ≡ aead.nonce_size)
IsRequest aead (delete_secret ref) = IsRef ref

-- The dictionary that a caller sees.
abbrev pub Shelf : Type 0
Shelf = Bytes → Option Bytes

abbrev pub set_entry : Bytes → Option Bytes → Shelf → Shelf
set_entry ref entry shelf q = if bytes_equal ref q then entry else shelf q

abbrev pub serve_shelf : Request → Shelf → Shelf
serve_shelf (put_secret ref secret none) shelf = shelf
serve_shelf (put_secret ref secret (some nonce)) shelf = set_entry ref (some secret) shelf
serve_shelf (delete_secret ref) shelf = set_entry ref none shelf

abbrev pub serve_shelf_all : List Request → Shelf → Shelf
serve_shelf_all [] shelf = shelf
serve_shelf_all (q ∷ qs) shelf = serve_shelf_all qs (serve_shelf q shelf)

abbrev pub empty_shelf : Shelf
empty_shelf q = none

abbrev pub reply : Option Bytes → Result Bytes
reply none = err not_found
reply (some secret) = ok secret

pub file_name-decode : (ref : Bytes) → All IsByte ref → decode url (file_name ref) ≡ some ref
unfolding file_name
file_name-decode ref h = decode-encode url ref h

pub some_injective : (a b : Bytes) → some a ≡ some b → a ≡ b
some_injective a b h = ground arith

-- Different refs have different names.
pub names_differ :
    (r q : Bytes)
    → All IsByte r
    → All IsByte q
    → bytes_equal (file_name r) (file_name q) ≡ bytes_equal r q
names_differ r q hr hq = elim (Bool-cases (bytes_equal r q)) [
  | inl e ↦
      let same = (bytes_equal_iff r q).0 e in (bytes_equal_iff _ _).1 (ap file_name same) ∙ sym e
  | inr e ↦ elim (Bool-cases (bytes_equal (file_name r) (file_name q))) [
    | inr f ↦ f ∙ sym e
    | inl f ↦
        let names = (bytes_equal_iff (file_name r) (file_name q)).0 f in
        let same =
          some_injective r q
            (sym (file_name-decode r hr) ∙ ap (decode url) names ∙ file_name-decode q hq) in
        let equal = (bytes_equal_iff r q).1 same in cc
  ]
]
