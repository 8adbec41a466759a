-- ===== src/Secrets/FileStore/Dictionary.antt =====
-- internal/secrets/filestore.go: the files implement a dictionary of secrets.
use ssh_access.Prelude.{
  arith, ◌≡◌, refl, ap, ◌∙◌, subst, true, ◌&&◌, ◌||◌, Option, none, some, List, [], ◌∷◌, ◌++◌,
  length, length-append, take-append, drop-append, All, is_some, inl, inr, if◌then◌else◌, if_elim,
  Bool-cases,
}
use ssh_access.Prelude.Bytes.{
  Bytes, bytes_equal, bytes_equal_iff, has_prefix, lookup_bytes, without_bytes,
  lookup_bytes-without_bytes,
}
use ssh_access.Prelude.Base64.{url, decode, IsByte}
use ssh_access.Secrets.FileStore.{
  Aead, Disk, ok, file_name, put, get, delete, read_file, decrypted, refs_of, list, sort_refs,
}
use ssh_access.Secrets.FileStore.Sorted.{contains_ref, contains_ref-sort_refs}
use ssh_access.Secrets.FileStore.Shelf.{
  Unseals, Request, after, serve, serve_all, IsRef, IsRequest, Shelf, set_entry, serve_shelf,
  serve_shelf_all, empty_shelf, reply, file_name-decode, names_differ, put_secret, delete_secret,
}

module _ (aead : Aead) where
  abbrev Holds : Bytes → Option Bytes → Option Bytes → Type 0
  Holds ref none none = Unit
  Holds ref none (some s) = ⊥
  Holds ref (some c) none = ⊥
  Holds ref (some c) (some s) = decrypted aead ref c ≡ ok s

  abbrev IsNamed : Bytes × Bytes → Type 0
  IsNamed f = (r : Bytes) × (f.0 ≡ file_name r) × All IsByte r

  record Represents (files : List (Bytes × Bytes)) (shelf : Shelf) : Type 0 where
    named : All IsNamed files
    content :
        (ref : Bytes) → All IsByte ref → Holds ref (lookup_bytes (file_name ref) files) (shelf ref)

  sealed :
      Unseals aead
      → (ref secret nonce : Bytes) → length nonce ≡ aead.nonce_size
      → decrypted aead ref (nonce ++ aead.seal nonce secret ref) ≡ ok secret
  sealed unseals ref secret nonce h =
      rw
        (
          ← h,
          take-append nonce (aead.seal nonce secret ref),
          drop-append nonce (aead.seal nonce secret ref),
          unseals nonce secret ref,
        )
        (ground (arith, length-append nonce (aead.seal nonce secret ref)))

  -- An entry that is written or removed, seen from a ref.
  set_content :
      (ref q : Bytes) (c e : Option Bytes) (files : List (Bytes × Bytes)) (shelf : Shelf)
      → All IsByte ref
      → All IsByte q
      → (bytes_equal ref q ≡ true → Holds q c e)
      → Holds q (lookup_bytes (file_name q) files) (shelf q)
      → Holds q
          (if bytes_equal (file_name ref) (file_name q)
            then c
            else lookup_bytes (file_name q) (without_bytes (file_name ref) files))
          (set_entry ref e shelf q)
  set_content ref q c e files shelf hr hq new old = elim (Bool-cases (bytes_equal ref q)) [
    | inl same ↦ rw (names_differ ref q hr hq, same) (new same)
    | inr other ↦
        rw (names_differ ref q hr hq, other)
          (rw
            (
              lookup_bytes-without_bytes (file_name ref) (file_name q) files,
              names_differ ref q hr hq,
              other,
            )
            old)
  ]

  without-named :
      (name : Bytes) (files : List (Bytes × Bytes))
      → All IsNamed files
      → All IsNamed (without_bytes name files)
  unfolding without_bytes
  without-named name [] a = tt
  without-named name ((j, v) ∷ files) (p, a) =
      let rest = without-named name files a in
      if_elim (All IsNamed) (bytes_equal j name) (λ e. rest) (λ e. (p, rest))

  put-Represents :
      Unseals aead
      → (ref secret nonce : Bytes) (files : List (Bytes × Bytes)) (shelf : Shelf) → IsRef ref
      → length nonce ≡ aead.nonce_size
      → Represents files shelf
      → (files' : List (Bytes × Bytes)) × (put aead ref secret (some nonce) (some files)
          ≡ ok (some files'))
        × Represents files' (set_entry ref (some secret) shelf)
  unfolding put lookup_bytes
  put-Represents unseals ref secret nonce files shelf (nonempty, bytes) size r = (
    (file_name ref, nonce ++ aead.seal nonce secret ref) ∷ without_bytes (file_name ref) files,
    rw nonempty refl,
    record {
      named = ((ref, refl, bytes), without-named (file_name ref) files r.named);
      content = λ q hq.
          set_content ref q (some (nonce ++ aead.seal nonce secret ref)) (some secret) files shelf
            bytes hq
            (λ e.
              let same = (bytes_equal_iff ref q).0 e in
              subst (λ z. decrypted aead z (nonce ++ aead.seal nonce secret ref) ≡ ok secret) same
                (sealed unseals ref secret nonce size))
            (r.content q hq);
    },
  )

  lookup_bytes-missing :
      (name q : Bytes) (files : List (Bytes × Bytes))
      → lookup_bytes q (without_bytes name files)
        ≡ (if bytes_equal name q then none else lookup_bytes q (without_bytes name files))
  lookup_bytes-missing name q files = ground (arith, lookup_bytes-without_bytes name q files)

  delete-Represents :
      (ref : Bytes) (files : List (Bytes × Bytes)) (shelf : Shelf)
      → IsRef ref
      → Represents files shelf
      → (files' : List (Bytes × Bytes)) × (delete ref (some files) ≡ ok (some files'))
        × Represents files' (set_entry ref none shelf)
  unfolding delete
  delete-Represents ref files shelf (nonempty, bytes) r = (
    without_bytes (file_name ref) files,
    rw nonempty refl,
    record {
      named = without-named (file_name ref) files r.named;
      content = λ q hq.
          rw (lookup_bytes-missing (file_name ref) (file_name q) files)
            (set_content ref q none none files shelf bytes hq (λ e. tt) (r.content q hq));
    },
  )

  no_nonce_put :
      (ref secret : Bytes) (disk : Disk) → after (put aead ref secret none disk) disk ≡ disk
  unfolding put
  no_nonce_put ref secret disk = ground arith

  serve-Represents :
      Unseals aead
      → (q : Request) (files : List (Bytes × Bytes)) (shelf : Shelf) → IsRequest aead q
      → Represents files shelf
      → (files' : List (Bytes × Bytes)) × (serve aead q (some files) ≡ some files')
        × Represents files' (serve_shelf q shelf)
  serve-Represents unseals (put_secret ref secret none) files shelf h r =
      (files, no_nonce_put ref secret (some files), r)
  serve-Represents unseals (put_secret ref secret (some nonce)) files shelf (is_ref, size) r =
      let (files', e, r') = put-Represents unseals ref secret nonce files shelf is_ref size r in
      (files', ap (λ d. after d (some files)) e, r')
  serve-Represents unseals (delete_secret ref) files shelf h r =
      let (files', e, r') = delete-Represents ref files shelf h r in
      (files', ap (λ d. after d (some files)) e, r')

  serve_all-Represents :
      Unseals aead
      → (qs : List Request) (files : List (Bytes × Bytes)) (shelf : Shelf) → All (IsRequest aead) qs
      → Represents files shelf
      → (files' : List (Bytes × Bytes)) × (serve_all aead qs (some files) ≡ some files')
        × Represents files' (serve_shelf_all qs shelf)
  serve_all-Represents unseals [] files shelf h r = (files, refl, r)
  serve_all-Represents unseals (q ∷ qs) files shelf (h, hs) r =
      let (files', e, r') = serve-Represents unseals q files shelf h r in
      let (end, e', r'') = serve_all-Represents unseals qs files' (serve_shelf q shelf) hs r' in
      (end, ap (serve_all aead qs) e ∙ e', r'')

  read_value : (ref : Bytes) (o e : Option Bytes) → Holds ref o e → read_file aead ref o ≡ reply e
  read_value ref none none h = refl
  read_value ref none (some s) h = absurd h
  read_value ref (some c) none h = absurd h
  read_value ref (some c) (some s) h = h

  get-Represents :
      (ref : Bytes) (files : List (Bytes × Bytes)) (shelf : Shelf)
      → IsRef ref
      → Represents files shelf
      → get aead ref (some files) ≡ reply (shelf ref)
  unfolding get
  get-Represents ref files shelf (nonempty, bytes) r =
      rw nonempty (read_value ref _ _ (r.content ref bytes))

  refs_of_cons :
      (prefix name v r : Bytes) (files : List (Bytes × Bytes))
      → decode url name ≡ some r
      → refs_of prefix ((name, v) ∷ files)
        ≡ (if has_prefix r prefix then r ∷ refs_of prefix files else refs_of prefix files)
  unfolding refs_of
  refs_of_cons prefix name v r files e = ground (arith, e)

  contains_cons :
      (ref r prefix : Bytes) (files : List (Bytes × Bytes))
      → contains_ref ref
          (if has_prefix r prefix then r ∷ refs_of prefix files else refs_of prefix files)
        ≡ ((has_prefix r prefix && bytes_equal r ref) || contains_ref ref (refs_of prefix files))
  contains_cons ref r prefix files = ground arith

  listed :
      (prefix ref : Bytes) (files : List (Bytes × Bytes))
      → All IsNamed files
      → All IsByte ref
      → contains_ref ref (refs_of prefix files)
        ≡ (is_some (lookup_bytes (file_name ref) files) && has_prefix ref prefix)
  unfolding refs_of lookup_bytes
  listed prefix ref [] a h = refl
  listed prefix ref ((name, v) ∷ files) ((r, e, hr), a) h =
      let decoded : decode url name ≡ some r = ap (decode url) e ∙ file_name-decode r hr in
      let same : bytes_equal name (file_name ref) ≡ bytes_equal r ref =
        ap (λ n. bytes_equal n (file_name ref)) e ∙ names_differ r ref hr h in
      ap (contains_ref ref) (refs_of_cons prefix name v r files decoded)
      ∙ elim (Bool-cases (bytes_equal r ref)) [
        | inr other ↦
            ground (arith, same, contains_cons ref r prefix files, listed prefix ref files a h)
        | inl eq ↦
            let prefixes : has_prefix r prefix ≡ has_prefix ref prefix =
              ap (λ z. has_prefix z prefix) ((bytes_equal_iff r ref).0 eq) in
            ground
              (arith, same, prefixes, contains_cons ref r prefix files, listed prefix ref files a h)
      ]

  Holds-is_some : (ref : Bytes) (o e : Option Bytes) → Holds ref o e → is_some o ≡ is_some e
  Holds-is_some ref none none h = refl
  Holds-is_some ref none (some s) h = absurd h
  Holds-is_some ref (some c) none h = absurd h
  Holds-is_some ref (some c) (some s) h = refl

-- A history of Put and Delete on a new store works like one on a dictionary: Get returns for every ref the
-- secret that was stored last and not deleted since, and not found where there is none; List returns
-- exactly the refs that have a secret and the prefix. A Put whose nonce cannot be read changes nothing.
-- The refs are not empty, and the cipher unseals what it sealed.
pub serve_all-IsDictionary :
    (aead : Aead) (qs : List Request) (prefix ref : Bytes)
    → Unseals aead
    → All (IsRequest aead) qs
    → IsRef ref
    → (get aead ref (serve_all aead qs (some [])) ≡ reply (serve_shelf_all qs empty_shelf ref))
      × ((refs : List Bytes) × (list prefix (serve_all aead qs (some [])) ≡ ok refs)
          × (contains_ref ref refs
              ≡ (is_some (serve_shelf_all qs empty_shelf ref) && has_prefix ref prefix)))
unfolding list lookup_bytes
serve_all-IsDictionary aead qs prefix ref unseals valid is_ref =
    let fresh : Represents aead [] empty_shelf = record { named = tt; content = λ q h. tt } in
    let (files, e, r) = serve_all-Represents aead unseals qs [] empty_shelf valid fresh in
    (
      ap (get aead ref) e ∙ get-Represents aead ref files (serve_shelf_all qs empty_shelf) is_ref r,
      (
        sort_refs (refs_of prefix files),
        ap (list prefix) e,
        contains_ref-sort_refs ref (refs_of prefix files)
            ∙ listed aead prefix ref files r.named is_ref.1
            ∙ ap (λ b. b && has_prefix ref prefix)
                (Holds-is_some aead ref _ _ (r.content ref is_ref.1)),
      ),
    )
