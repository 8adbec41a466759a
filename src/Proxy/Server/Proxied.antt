-- ===== src/Proxy/Server/Proxied.antt =====
-- internal/proxy/server.go: nothing reaches a target without an authorization for it.
use ssh_access.Prelude.{
  ℕ, String, ◌==◌, eq_iff, ◌≡◌, refl, Option, none, some, List, [], ◌∷◌, ◌++◌, All, All-append,
  if_elim,
}
use ssh_access.Proxy.Types.{Identity, TargetSpec, Decision, Authorization, allow, deny}
use ssh_access.Proxy.Target.{parse_target, Parsed, ok, err}
use ssh_access.Proxy.Effects.{
  World, Effect, NewChannel, start_session, add_session, remove_session, open_recording,
  proxy_channel, close_target, close_user,
}
use ssh_access.Proxy.Server.{
  Totals, identity_from, refuse_channels, proxy_channels, handle_conn, on_handshake, on_parse,
  on_authorize, on_connect, brokered, with_session, without_session, closing, ending, opened,
  opening, counted, refused, no_totals,
}

-- The user of the connection was authorized for the target that its name gives, with this decision, and
-- the broker connected to it with a certificate of this serial number.
pub record Cleared (w : World) (d : Decision) (serial : ℕ) : Type 0 where
  pub extensions : Option (List (String × String))
  pub spec : TargetSpec
  pub authenticated : w.handshake ≡ some extensions
  pub parsed : parse_target w.user ≡ ok spec
  pub authorized : w.authorize (identity_from extensions) spec ≡ allow d
  pub reached : w.connect_target (identity_from extensions) spec d ≡ some serial

-- What has to hold for an effect.
abbrev pub IsCleared : World → Effect → Type 0
IsCleared w (proxy_channel d c) = ((serial : ℕ) × Cleared w d serial) × (c.channel_type ≡ "session")
IsCleared w (start_session r) =
    (d : Decision) × Cleared w d r.cert_serial × (r.login ≡ d.login) × (r.address ≡ d.address)
IsCleared w (add_session info) =
    (d : Decision) × (serial : ℕ) × Cleared w d serial × (info.login ≡ d.login)
IsCleared w (open_recording sid) =
    (d : Decision) × (serial : ℕ) × Cleared w d serial × (d.recording ≡ "full")
IsCleared w eff = Unit

module _ (w : World) where
  refuse_channels-IsCleared :
      (msg : String) (cs : List NewChannel) → All (IsCleared w) (refuse_channels msg cs)
  unfolding refuse_channels
  refuse_channels-IsCleared msg [] = tt
  refuse_channels-IsCleared msg (c ∷ cs) =
      let rest = refuse_channels-IsCleared msg cs in
      if_elim (All (IsCleared w)) (c.channel_type == "session") (λ e. (tt, rest)) (λ e. (tt, rest))

  refused-IsCleared : (msg : String) → All (IsCleared w) (refused w msg)
  refused-IsCleared msg =
      All-append (IsCleared w) (refuse_channels msg w.channels) (close_user ∷ [])
        (refuse_channels-IsCleared msg w.channels) (tt, tt)

  module _ (d : Decision) (serial : ℕ) (cleared : Cleared w d serial) where
    proxy_channels-IsCleared :
        (cs : List NewChannel) (t : Totals) → All (IsCleared w) (proxy_channels d cs t).0
    unfolding proxy_channels
    proxy_channels-IsCleared [] t = tt
    proxy_channels-IsCleared (c ∷ cs) t =
        if_elim (λ (r : List Effect × Totals). All (IsCleared w) r.0) (c.channel_type == "session")
          (λ e. (
            ((serial, cleared), (eq_iff c.channel_type "session").0 e),
            proxy_channels-IsCleared cs (counted t c),
          ))
          (λ e. (tt, proxy_channels-IsCleared cs t))

    opening-IsCleared : (sid : String) → All (IsCleared w) (opening w d sid)
    opening-IsCleared sid =
        if_elim (All (IsCleared w)) (d.recording == "full")
          (λ e. ((d, serial, cleared, (eq_iff d.recording "full").0 e), tt)) (λ e. tt)

    closing-IsCleared : (o : Option String) → All (IsCleared w) (closing w o)
    closing-IsCleared none = tt
    closing-IsCleared (some ref) = (tt, tt)

    ending-IsCleared :
        (sid : String) (t : Totals) (o : Option String) → All (IsCleared w) (ending w sid t o)
    ending-IsCleared sid t o = (
      tt,
      All-append (IsCleared w) (closing w o) (close_target ∷ remove_session sid ∷ close_user ∷ [])
          (closing-IsCleared o) (tt, (tt, (tt, tt))),
    )

    without_session-IsCleared : All (IsCleared w) (without_session w d)
    unfolding without_session
    without_session-IsCleared =
        All-append (IsCleared w) (proxy_channels d w.channels (no_totals w)).0
          (close_target ∷ close_user ∷ []) (proxy_channels-IsCleared w.channels (no_totals w))
          (tt, (tt, tt))

    with_session-IsCleared :
        (id : Identity) (spec : TargetSpec) (sid : String)
        → All (IsCleared w) (with_session w id spec d sid)
    unfolding with_session
    with_session-IsCleared id spec sid =
        let run = proxy_channels d w.channels (no_totals w) in
        (
          (d, serial, cleared, refl),
          All-append (IsCleared w) (opening w d sid) (run.0 ++ ending w sid run.1 (opened w d sid))
              (opening-IsCleared sid)
              (All-append (IsCleared w) run.0 (ending w sid run.1 (opened w d sid))
                (proxy_channels-IsCleared w.channels (no_totals w))
                (ending-IsCleared sid run.1 (opened w d sid))),
        )

    brokered-IsCleared :
        (id : Identity) (spec : TargetSpec) (o : Option String)
        → All (IsCleared w) (brokered w id spec d o)
    unfolding brokered
    brokered-IsCleared id spec none = without_session-IsCleared
    brokered-IsCleared id spec (some sid) =
        if_elim (All (IsCleared w)) (sid == "") (λ e. without_session-IsCleared)
          (λ e. with_session-IsCleared id spec sid)

  module _ (ext : Option (List (String × String))) (met : w.handshake ≡ some ext) where
    on_connect-IsCleared :
        (spec : TargetSpec) (d : Decision)
        → parse_target w.user ≡ ok spec
        → w.authorize (identity_from ext) spec ≡ allow d
        → (o : Option ℕ) → w.connect_target (identity_from ext) spec d ≡ o
        → All (IsCleared w) (on_connect w (identity_from ext) spec d o)
    unfolding on_connect
    on_connect-IsCleared spec d p a none e = (tt, refused-IsCleared _)
    on_connect-IsCleared spec d p a (some serial) e =
        let cleared : Cleared w d serial = record {
          extensions = ext;
          spec = spec;
          authenticated = met;
          parsed = p;
          authorized = a;
          reached = e;
        } in
        (
          (d, cleared, refl, refl),
          brokered-IsCleared d serial cleared (identity_from ext) spec w.session_id,
        )

    on_authorize-IsCleared :
        (spec : TargetSpec) (a : Authorization)
        → parse_target w.user ≡ ok spec
        → w.authorize (identity_from ext) spec ≡ a
        → All (IsCleared w) (on_authorize w (identity_from ext) spec a)
    unfolding on_authorize
    on_authorize-IsCleared spec (deny why) p e = (tt, refused-IsCleared _)
    on_authorize-IsCleared spec (allow d) p e = on_connect-IsCleared spec d p e _ refl

    on_parse-IsCleared :
        (p : Parsed)
        → parse_target w.user ≡ p
        → All (IsCleared w) (on_parse w (identity_from ext) p)
    unfolding on_parse
    on_parse-IsCleared (err e) h = (tt, refused-IsCleared _)
    on_parse-IsCleared (ok spec) h = on_authorize-IsCleared spec _ h refl

  on_handshake-IsCleared :
      (o : Option (Option (List (String × String))))
      → w.handshake ≡ o
      → All (IsCleared w) (on_handshake w o)
  unfolding on_handshake
  on_handshake-IsCleared none e = (tt, tt)
  on_handshake-IsCleared (some ext) e = on_parse-IsCleared ext e _ refl

-- Whatever happens around a connection, a channel is proxied, a session is recorded or registered and
-- a recording is opened only after the handshake authenticated the user, the name was parsed, the
-- user was authorized for the target and the broker connected to it; only session channels
-- are proxied, under the decision of that authorization, and only a decision with full
-- recording opens one.
pub handle_conn-IsCleared : (w : World) → All (IsCleared w) (handle_conn w)
unfolding handle_conn
handle_conn-IsCleared w = on_handshake-IsCleared w w.handshake refl
