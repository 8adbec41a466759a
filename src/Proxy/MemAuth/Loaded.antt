-- ===== src/Proxy/MemAuth/Loaded.antt =====
-- internal/proxy/memauth.go: loading ends, and what is loaded.
use ssh_access.Prelude.{
  arith, ℕ, zero, suc, ◌<◌, ◌≡◌, ◌≢◌, refl, String, Bool, true, false, ◌==◌, Option, none, some,
  List, [], ◌∷◌, length, any, if◌then◌else◌, lookup, lookup-put, Option-cases, Bool-cases, ◌∙◌, ◌⊎◌,
  inl, inr,
}
use ssh_access.Proxy.Types.{Identity}
use ssh_access.Proxy.MemAuth.{
  MemoryAuthenticator, authenticate_public_key, add, Text, KeyParser, Shrinks, Load, loaded,
  missing_comment, named, load_loop, load_authorized_users, new_memory_authenticator,
}

-- The entries that the parser reads off a text, keys with their comments, up to the end or to
-- what is no key.
pub data Entries (parse : KeyParser) : Text → List (String × String) → Type 0 where
  end : Entries parse [] []
  no_key : {text : Text} → parse text ≡ none → Entries parse text []
  entry :
      {text rest : Text} {key comment : String} {es : List (String × String)}
      → text ≢ []
      → parse text ≡ some (key, comment, rest)
      → Entries parse rest es
      → Entries parse text ((key, comment) ∷ es)

abbrev pub some_unnamed : List (String × String) → Bool
some_unnamed es = any (λ (e : String × String). e.1 == "") es

-- The comment of the last entry of a key.
abbrev pub last_comment : String → List (String × String) → Option String
last_comment key [] = none
last_comment key ((k, c) ∷ es) = elim (last_comment key es) [
  | none ↦ if k == key then some c else none
  | some d ↦ some d
]

abbrev pub known : Option String → Option Identity → Option Identity
known none old = old
known (some c) old = some (named c)

-- What loading the entries onto an authenticator comes to.
record Outcome (es : List (String × String)) (m : MemoryAuthenticator) (out : Load) : Type 0 where
  refused : some_unnamed es ≡ true → out ≡ missing_comment
  accepted :
      some_unnamed es ≡ false
      → (m' : MemoryAuthenticator) × (out ≡ loaded m')
        × ((key : String)
            → authenticate_public_key m' key
              ≡ known (last_comment key es) (authenticate_public_key m key))

stopped : (m : MemoryAuthenticator) (out : Load) → out ≡ loaded m → Outcome [] m out
stopped m out h = record { refused = λ e. cc; accepted = λ e. (m, h, λ key. refl) }

known-last_comment :
    (key comment k : String) (es : List (String × String)) (m : MemoryAuthenticator)
    → known (last_comment k es) (authenticate_public_key (add key (named comment) m) k)
      ≡ known (last_comment k ((key, comment) ∷ es)) (authenticate_public_key m k)
unfolding authenticate_public_key add
known-last_comment key comment k es m = ground (arith, lookup-put key k (named comment) m)

step :
    (key comment : String) (es : List (String × String)) (m : MemoryAuthenticator) (next out : Load)
    → out ≡ (if comment == "" then missing_comment else next)
    → Outcome es (add key (named comment) m) next
    → Outcome ((key, comment) ∷ es) m out
step key comment es m next out e o = elim (Bool-cases (comment == "")) [
  | inl unnamed ↦ record { refused = λ h. ground arith; accepted = λ h. absurd (ground arith) }
  | inr is_named ↦ record {
    refused = λ h. let rest = o.refused (ground arith) in ground arith;
    accepted = λ h.
        let (m', same, knows) = o.accepted (ground arith) in
        (m', ground arith, λ k. knows k ∙ known-last_comment key comment k es m);
  }
]

load_loop-Outcome :
    (parse : KeyParser)
    → Shrinks parse
    → (fuel : ℕ) (text : Text) (m : MemoryAuthenticator) → length text < fuel
    → (es : List (String × String)) × Entries parse text es
      × Outcome es m (load_loop parse fuel text m)
unfolding load_loop
load_loop-Outcome parse shrinks zero text m h = absurd (omega arith)
load_loop-Outcome parse shrinks (suc fuel) [] m h = ([], end, stopped m _ refl)
load_loop-Outcome parse shrinks (suc fuel) (c ∷ cs) m h = elim (Option-cases (parse (c ∷ cs))) [
  | inl e ↦ ([], no_key e, stopped m _ (ground arith))
  | inr ((key, comment, rest), e) ↦
      let (es, read, out) =
        load_loop-Outcome parse shrinks fuel rest (add key (named comment) m)
          (let less = shrinks (c ∷ cs) rest key comment e in omega arith) in
      ((key, comment) ∷ es, entry (λ z. cc) e read, step key comment es m _ _ (ground arith) out)
]

-- Loading a file ends, where the parser shortens the text, and reads the entries of the file. Either an
-- entry has no comment and the file is refused, or each key lets in the user that the comment of its
-- last entry names, and no other key lets in anyone.
pub load_authorized_users-total :
    (parse : KeyParser) (text : Text)
    → Shrinks parse
    → (es : List (String × String)) × Entries parse text es
      × (((some_unnamed es ≡ true) × (load_authorized_users parse (some text) ≡ missing_comment))
          ⊎ ((some_unnamed es ≡ false)
              × (m : MemoryAuthenticator) × (load_authorized_users parse (some text) ≡ loaded m)
              × ((key : String)
                  → authenticate_public_key m key ≡ known (last_comment key es) none)))
unfolding load_authorized_users authenticate_public_key lookup
load_authorized_users-total parse text shrinks =
    let (es, read, out) =
      load_loop-Outcome parse shrinks (suc (length text)) text new_memory_authenticator
        (omega arith) in
    (
      es,
      read,
      (elim (Bool-cases (some_unnamed es)) [
        | inl unnamed ↦ inl (unnamed, out.refused unnamed)
        | inr named' ↦ let (m, same, knows) = out.accepted named' in inr (named', m, same, knows)
      ]),
    )
