-- ===== src/Samples/Secrets.antt =====
-- Runs of the secret store of internal/secrets.
use ssh_access.Prelude.{arith, ◌≡◌, refl, ◌&&◌, none, some, List, [], ◌∷◌, All, is_some}
use ssh_access.Prelude.Bytes.{Bytes, bytes_equal, has_prefix}
use ssh_access.Secrets.FileStore.{delete, Aead, ok, get, list}
use ssh_access.Secrets.FileStore.Sorted.{contains_ref}
use ssh_access.Secrets.FileStore.Shelf.{
  Request, put_secret, delete_secret, Unseals, IsRequest, IsRef, serve_all, serve_shelf_all,
  empty_shelf, reply,
}
use ssh_access.Secrets.FileStore.Dictionary.{serve_all-IsDictionary}

-- A cipher that hides nothing.
abbrev plain_aead : Aead
plain_aead = record {
  nonce_size = 1;
  seal = λ nonce plain ad. plain;
  unseal = λ nonce sealed ad. some sealed;
}

plain_aead-Unseals : Unseals plain_aead
plain_aead-Unseals nonce plain ad = refl

-- The refs are "ssh/a" and "b".
abbrev ssh_a : Bytes
ssh_a = 115 ∷ 115 ∷ 104 ∷ 47 ∷ 97 ∷ []

abbrev ref_b : Bytes
ref_b = 98 ∷ []

ssh_a-IsRef : IsRef ssh_a
ssh_a-IsRef = (refl, (omega arith, (omega arith, (omega arith, (omega arith, (omega arith, tt))))))

ref_b-IsRef : IsRef ref_b
ref_b-IsRef = (refl, (omega arith, tt))

abbrev history : List Request
history =
    put_secret ssh_a (1 ∷ 2 ∷ []) (some (7 ∷ []))
    ∷ put_secret ref_b (3 ∷ []) (some (8 ∷ []))
    ∷ put_secret ssh_a (4 ∷ []) none
    ∷ delete_secret ref_b
    ∷ []

history-IsRequest : All (IsRequest plain_aead) history
history-IsRequest = ((ssh_a-IsRef, refl), ((ref_b-IsRef, refl), (ssh_a-IsRef, (ref_b-IsRef, tt))))

serve_all-IsDictionary_example :
    (get plain_aead ssh_a (serve_all plain_aead history (some []))
      ≡ reply (serve_shelf_all history empty_shelf ssh_a))
    × ((refs : List Bytes) × (list (115 ∷ []) (serve_all plain_aead history (some [])) ≡ ok refs)
        × (contains_ref ssh_a refs
            ≡ (is_some (serve_shelf_all history empty_shelf ssh_a) && has_prefix ssh_a (115 ∷ []))))
serve_all-IsDictionary_example =
    serve_all-IsDictionary plain_aead history (115 ∷ []) ssh_a plain_aead-Unseals history-IsRequest
      ssh_a-IsRef

held : serve_shelf_all history empty_shelf ssh_a ≡ some (1 ∷ 2 ∷ [])
unfolding bytes_equal
held = refl

-- The name of the empty ref is the directory, which goes when it is empty.
directory_deleted : delete [] (some []) ≡ ok none
unfolding delete
directory_deleted = refl
