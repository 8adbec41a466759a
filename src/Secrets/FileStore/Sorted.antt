-- ===== src/Secrets/FileStore/Sorted.antt =====
-- internal/secrets/filestore.go: sorting keeps the refs.
use ssh_access.Prelude.{arith, Bool, ◌||◌, ◌≡◌, refl, List, [], ◌∷◌, any}
use ssh_access.Prelude.Bytes.{Bytes, bytes_equal}
use ssh_access.Secrets.FileStore.{insert_ref, sort_refs}

abbrev pub contains_ref : Bytes → List Bytes → Bool
contains_ref ref refs = any (λ r. bytes_equal r ref) refs

contains_ref-insert_ref :
    (ref a : Bytes) (refs : List Bytes)
    → contains_ref ref (insert_ref a refs) ≡ (bytes_equal a ref || contains_ref ref refs)
unfolding insert_ref
contains_ref-insert_ref ref a [] = refl
contains_ref-insert_ref ref a (x ∷ xs) = ground (arith, contains_ref-insert_ref ref a xs)

pub contains_ref-sort_refs :
    (ref : Bytes) (refs : List Bytes) → contains_ref ref (sort_refs refs) ≡ contains_ref ref refs
unfolding sort_refs
contains_ref-sort_refs ref [] = refl
contains_ref-sort_refs ref (x ∷ xs) =
    ground (arith, contains_ref-insert_ref ref x (sort_refs xs), contains_ref-sort_refs ref xs)
