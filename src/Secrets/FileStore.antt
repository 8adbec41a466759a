-- ===== src/Secrets/FileStore.antt =====
-- internal/secrets/filestore.go: secrets in encrypted files. AES-GCM is the record Aead; the random
-- nonce is an argument, and `none` where rand.Read fails. File operations succeed where the
-- operating system allows them, and the directory holds files only.
pub mod Sorted
pub mod Shelf
pub mod Dictionary
use ssh_access.Prelude.{
  ℕ, Bool, true, false, ◌&&◌, Option, none, some, List, [], ◌∷◌, ◌++◌, length, eqb, ltb, is_empty,
  take, drop, if◌then◌else◌,
}
use ssh_access.Prelude.Bytes.{Bytes, has_prefix, lookup_bytes, without_bytes}
use ssh_access.Prelude.Base64.{url, encode, decode}

pub record Aead : Type 0 where
  pub nonce_size : ℕ
  -- nonce, plaintext, additional data
  pub seal : Bytes → Bytes → Bytes → Bytes
  -- nonce, ciphertext, additional data
  pub unseal : Bytes → Bytes → Bytes → Option Bytes

-- The files of the directory by their names; `none` where there is no directory.
abbrev pub Disk : Type 0
Disk = Option (List (Bytes × Bytes))

pub data Fault : Type 0 where
  empty_ref no_nonce not_found read_failed too_short not_authentic remove_failed : Fault
  bad_key no_directory : Fault

pub data Result (A : Type 0) : Type 0 where
  ok : A → Result A
  err : Fault → Result A

-- NewFileStore, with the cipher that aes.NewCipher and cipher.NewGCM give for a key
unfoldable pub new_file_store : (Bytes → Aead) → Bytes → Disk → Result (Aead × Disk)
new_file_store new_gcm key disk =
    if eqb (length key) 32
    then ok (new_gcm key, (elim disk [ none ↦ some [] | some files ↦ some files ]))
    else err bad_key

-- path, without the directory; the name of the empty ref is the directory itself.
unfoldable pub file_name : Bytes → Bytes
file_name ref = encode url ref

-- os.WriteFile
abbrev write_file : Bytes → Bytes → Disk → Result Disk
write_file name content none = err no_directory
write_file name content (some files) = ok (some ((name, content) ∷ without_bytes name files))

module _ (aead : Aead) where
  -- Put
  unfoldable pub put : Bytes → Bytes → Option Bytes → Disk → Result Disk
  put ref secret nonce disk = if is_empty ref then err empty_ref else (elim nonce [
    | none ↦ err no_nonce
    | some n ↦ write_file (file_name ref) (n ++ aead.seal n secret ref) disk
  ])

  abbrev opened : Option Bytes → Result Bytes
  opened none = err not_authentic
  opened (some plain) = ok plain

  abbrev decrypted : Bytes → Bytes → Result Bytes
  decrypted ref content =
      if ltb (length content) aead.nonce_size
      then err too_short
      else opened (aead.unseal (take aead.nonce_size content) (drop aead.nonce_size content) ref)

  abbrev read_file : Bytes → Option Bytes → Result Bytes
  read_file ref none = err not_found
  read_file ref (some content) = decrypted ref content

  -- Get
  unfoldable pub get : Bytes → Disk → Result Bytes
  get ref none = err not_found
  get ref (some files) =
      if is_empty ref then err read_failed else read_file ref (lookup_bytes (file_name ref) files)

-- Delete; os.Remove of the directory itself succeeds where it is empty.
unfoldable pub delete : Bytes → Disk → Result Disk
delete ref none = ok none
delete ref (some files) =
    if is_empty ref
    then if is_empty files then ok none else err remove_failed
    else ok (some (without_bytes (file_name ref) files))

-- The refs of the files whose names are of the store.
unfoldable pub refs_of : Bytes → List (Bytes × Bytes) → List Bytes
refs_of prefix [] = []
refs_of prefix ((name, content) ∷ files) =
    let rest = refs_of prefix files in
    elim (decode url name) [
      | none ↦ rest
      | some ref ↦ if has_prefix ref prefix then ref ∷ rest else rest
    ]

-- The order of Go's strings.
unfoldable pub bytes_leb : Bytes → Bytes → Bool
bytes_leb [] ys = true
bytes_leb (x ∷ xs) [] = false
bytes_leb (x ∷ xs) (y ∷ ys) =
    let later = bytes_leb xs ys in if ltb x y then true else if eqb x y then later else false

unfoldable pub insert_ref : Bytes → List Bytes → List Bytes
insert_ref a [] = a ∷ []
insert_ref a (x ∷ xs) = if bytes_leb a x then a ∷ x ∷ xs else x ∷ insert_ref a xs

-- sort.Strings
unfoldable pub sort_refs : List Bytes → List Bytes
sort_refs [] = []
sort_refs (x ∷ xs) = insert_ref x (sort_refs xs)

-- List
unfoldable pub list : Bytes → Disk → Result (List Bytes)
list prefix none = err no_directory
list prefix (some files) = ok (sort_refs (refs_of prefix files))
