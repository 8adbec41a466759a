-- ===== src/Proxy/Server/Tally.antt =====
-- internal/proxy/server.go: the effects of a connection counted, and the pieces of it that neither begin nor
-- end a session.
use ssh_access.Prelude.{
  ℕ, ◌+◌, String, Bool, false, ◌==◌, ◌≡◌, refl, Option, none, List, [], ◌∷◌, ◌++◌, filter, if_elim,
  All, if◌then◌else◌, arith,
}
use ssh_access.Prelude.Int.{ℤ}
use ssh_access.Proxy.Types.{Decision}
use ssh_access.Proxy.Effects.{
  World, Effect, NewChannel, record_event, start_session, add_session, remove_session,
  open_recording, close_recording, reject_channel, notice, proxy_channel, end_session, close_target,
  close_user,
}
use ssh_access.Proxy.Server.{Totals, refuse_channels, proxy_channels, counted, last_exit}

-- The session channels of the connection.
abbrev pub is_session : NewChannel → Bool
is_session c = c.channel_type == "session"

abbrev pub sum_in : List NewChannel → ℕ
sum_in [] = 0
sum_in (c ∷ cs) = c.bytes_in + sum_in cs

abbrev pub sum_out : List NewChannel → ℕ
sum_out [] = 0
sum_out (c ∷ cs) = c.bytes_out + sum_out cs

abbrev pub final_exit : Option ℤ → List NewChannel → Option ℤ
final_exit e [] = e
final_exit e (c ∷ cs) = final_exit (last_exit c.exit_status e) cs

pub proxy_channels_lem :
    (d : Decision) (cs : List NewChannel) (t : Totals)
    → (((proxy_channels d cs t).1).bytes_in ≡ t.bytes_in + sum_in (filter is_session cs))
      × (((proxy_channels d cs t).1).bytes_out ≡ t.bytes_out + sum_out (filter is_session cs))
      × (((proxy_channels d cs t).1).exit_status ≡ final_exit t.exit_status (filter is_session cs))
unfolding proxy_channels
proxy_channels_lem d [] t = ground arith
proxy_channels_lem d (c ∷ cs) t =
    ground (arith, proxy_channels_lem d cs (counted t c), proxy_channels_lem d cs t)

-- How many effects of a list pass a test.
abbrev pub tally : (Effect → Bool) → List Effect → ℕ
tally p [] = 0
tally p (x ∷ xs) = (if p x then 1 else 0) + tally p xs

abbrev pub adds : String → Effect → Bool
adds sid (add_session info) = info.id == sid
adds sid eff = false

abbrev pub removes : String → Effect → Bool
removes sid (remove_session i) = i == sid
removes sid eff = false

abbrev pub ends : String → Effect → Bool
ends sid (end_session i o) = i == sid
ends sid eff = false

-- Each session that is registered is removed again and is ended in the database, as often; and an end
-- tells what the session channels carried.
abbrev pub IsBalanced : String → List Effect → Type 0
IsBalanced sid effs =
    (tally (adds sid) effs ≡ tally (removes sid) effs)
    × (tally (adds sid) effs ≡ tally (ends sid) effs)

abbrev pub IsQuiet : Effect → Type 0
IsQuiet (add_session info) = ⊥
IsQuiet (remove_session sid) = ⊥
IsQuiet (end_session sid o) = ⊥
IsQuiet eff = Unit

pub tally-append :
    (p : Effect → Bool) (xs ys : List Effect) → tally p (xs ++ ys) ≡ tally p xs + tally p ys
tally-append p [] ys = omega arith
tally-append p (x ∷ xs) ys = ground (arith, tally-append p xs ys)

module _ (sid : String) where
  pub quiet_one :
      (x : Effect)
      → IsQuiet x
      → (adds sid x ≡ false) × (removes sid x ≡ false) × (ends sid x ≡ false)
  quiet_one (record_event e) q = (refl, refl, refl)
  quiet_one (start_session r) q = (refl, refl, refl)
  quiet_one (add_session info) q = absurd q
  quiet_one (remove_session i) q = absurd q
  quiet_one (open_recording i) q = (refl, refl, refl)
  quiet_one close_recording q = (refl, refl, refl)
  quiet_one reject_channel q = (refl, refl, refl)
  quiet_one (notice m) q = (refl, refl, refl)
  quiet_one (proxy_channel d c) q = (refl, refl, refl)
  quiet_one (end_session i o) q = absurd q
  quiet_one close_target q = (refl, refl, refl)
  quiet_one close_user q = (refl, refl, refl)

  pub quiet_tally :
      (xs : List Effect)
      → All IsQuiet xs
      → (tally (adds sid) xs ≡ 0) × (tally (removes sid) xs ≡ 0) × (tally (ends sid) xs ≡ 0)
  quiet_tally [] q = (refl, refl, refl)
  quiet_tally (x ∷ xs) (q, qs) = ground (arith, quiet_one x q, quiet_tally xs qs)

  pub quiet_prefix :
      (xs ys : List Effect)
      → All IsQuiet xs
      → (tally (adds sid) (xs ++ ys) ≡ tally (adds sid) ys)
        × (tally (removes sid) (xs ++ ys) ≡ tally (removes sid) ys)
        × (tally (ends sid) (xs ++ ys) ≡ tally (ends sid) ys)
  quiet_prefix xs ys q = ground (
    arith,
    quiet_tally xs q,
    tally-append (adds sid) xs ys,
    tally-append (removes sid) xs ys,
    tally-append (ends sid) xs ys,
  )

  pub quiet-IsBalanced : (xs : List Effect) → All IsQuiet xs → IsBalanced sid xs
  quiet-IsBalanced xs q = ground (arith, quiet_tally xs q)

pub refuse_channels-IsQuiet :
    (msg : String) (cs : List NewChannel) → All IsQuiet (refuse_channels msg cs)
unfolding refuse_channels
refuse_channels-IsQuiet msg [] = tt
refuse_channels-IsQuiet msg (c ∷ cs) =
    let rest = refuse_channels-IsQuiet msg cs in
    if_elim (All IsQuiet) (c.channel_type == "session") (λ e. (tt, rest)) (λ e. (tt, rest))

pub proxy_channels-IsQuiet :
    (d : Decision) (cs : List NewChannel) (t : Totals) → All IsQuiet (proxy_channels d cs t).0
unfolding proxy_channels
proxy_channels-IsQuiet d [] t = tt
proxy_channels-IsQuiet d (c ∷ cs) t =
    if_elim (λ (r : List Effect × Totals). All IsQuiet r.0) (c.channel_type == "session")
      (λ e. (tt, proxy_channels-IsQuiet d cs (counted t c)))
      (λ e. (tt, proxy_channels-IsQuiet d cs t))

-- What holds for an effect of a connection: an end of a session tells the bytes and the last exit status
-- of the session channels.
abbrev pub IsAccounted : World → Effect → Type 0
IsAccounted w (end_session sid o) =
    (o.bytes_in ≡ sum_in (filter is_session w.channels))
    × (o.bytes_out ≡ sum_out (filter is_session w.channels))
    × (o.exit_status ≡ final_exit none (filter is_session w.channels))
IsAccounted w eff = Unit

pub quiet-IsAccounted : (w : World) (x : Effect) → IsQuiet x → IsAccounted w x
quiet-IsAccounted w (record_event e) q = tt
quiet-IsAccounted w (start_session r) q = tt
quiet-IsAccounted w (add_session info) q = tt
quiet-IsAccounted w (remove_session i) q = tt
quiet-IsAccounted w (open_recording i) q = tt
quiet-IsAccounted w close_recording q = tt
quiet-IsAccounted w reject_channel q = tt
quiet-IsAccounted w (notice m) q = tt
quiet-IsAccounted w (proxy_channel d c) q = tt
quiet-IsAccounted w (end_session i o) q = absurd q
quiet-IsAccounted w close_target q = tt
quiet-IsAccounted w close_user q = tt
