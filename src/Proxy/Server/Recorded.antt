-- ===== src/Proxy/Server/Recorded.antt =====
-- internal/proxy/server.go: a session that was recorded is accounted for and ends.
use ssh_access.Prelude.{
  ℕ, String, ◌==◌, ◌≡◌, Option, none, some, List, [], ◌∷◌, ◌++◌, if_elim, All, All-append, All-mono,
  if◌then◌else◌, ◌+++◌, arith,
}
use ssh_access.Proxy.Types.{Identity, TargetSpec, Decision, Authorization, allow, deny}
use ssh_access.Proxy.Target.{parse_target, Parsed, ok, err}
use ssh_access.Proxy.Effects.{
  World, Effect, SessionRecord, start_session, remove_session, close_target, close_user,
}
use ssh_access.Proxy.Server.{
  Totals, identity_from, refuse_channels, proxy_channels, handle_conn, on_handshake, on_parse,
  on_authorize, on_connect, brokered, with_session, without_session, closing, ending,
  session_record, unreachable, denied, rejected, opened, opening, refused, no_totals,
}
use ssh_access.Proxy.Server.Tally.{
  proxy_channels_lem, tally, adds, removes, ends, IsBalanced, IsQuiet, quiet_prefix,
  quiet-IsBalanced, refuse_channels-IsQuiet, proxy_channels-IsQuiet, IsAccounted, quiet-IsAccounted,
}

module _ (w : World) where
  abbrev Holds : List Effect → Type 0
  Holds effs = ((sid : String) → IsBalanced sid effs) × All (IsAccounted w) effs

  quiet-Holds : (xs : List Effect) → All IsQuiet xs → Holds xs
  quiet-Holds xs q = (
    λ sid. quiet-IsBalanced sid xs q,
    All-mono IsQuiet (IsAccounted w) (quiet-IsAccounted w) xs q,
  )

  refused-Holds : (x : Effect) (msg : String) → IsQuiet x → Holds (x ∷ refused w msg)
  refused-Holds x msg q = quiet-Holds (x ∷ refused w msg) (
    q,
    All-append IsQuiet (refuse_channels msg w.channels) (close_user ∷ [])
        (refuse_channels-IsQuiet msg w.channels) (tt, tt),
  )

  opening-IsQuiet : (d : Decision) (sid : String) → All IsQuiet (opening w d sid)
  opening-IsQuiet d sid = if_elim (All IsQuiet) (d.recording == "full") (λ e. (tt, tt)) (λ e. tt)

  closing-IsQuiet : (o : Option String) → All IsQuiet (closing w o)
  closing-IsQuiet none = tt
  closing-IsQuiet (some ref) = (tt, tt)

  without_session-Holds : (d : Decision) (x : Effect) → IsQuiet x → Holds (x ∷ without_session w d)
  unfolding without_session
  without_session-Holds d x q = quiet-Holds (x ∷ without_session w d) (
    q,
    All-append IsQuiet (proxy_channels d w.channels (no_totals w)).0
        (close_target ∷ close_user ∷ []) (proxy_channels-IsQuiet d w.channels (no_totals w))
        (tt, (tt, tt)),
  )

  ending-tally :
      (sid : String) (t : Totals) (o : Option String) (i : String)
      → (tally (adds i) (ending w sid t o) ≡ 0)
        × (tally (removes i) (ending w sid t o) ≡ (if sid == i then 1 else 0))
        × (tally (ends i) (ending w sid t o) ≡ (if sid == i then 1 else 0))
  ending-tally sid t o i = ground (
    arith,
    quiet_prefix i (closing w o) (close_target ∷ remove_session sid ∷ close_user ∷ [])
        (closing-IsQuiet o),
  )

  with_session-IsBalanced :
      (id : Identity) (spec : TargetSpec) (d : Decision) (sid i : String)
      → IsBalanced i (with_session w id spec d sid)
  unfolding with_session
  with_session-IsBalanced id spec d sid i =
      let run = proxy_channels d w.channels (no_totals w) in
      let rest = ending w sid run.1 (opened w d sid) in
      ground (
        arith,
        quiet_prefix i (opening w d sid) (run.0 ++ rest) (opening-IsQuiet d sid),
        quiet_prefix i run.0 rest (proxy_channels-IsQuiet d w.channels (no_totals w)),
        ending-tally sid run.1 (opened w d sid) i,
      )

  accounted : (xs : List Effect) → All IsQuiet xs → All (IsAccounted w) xs
  accounted xs q = All-mono IsQuiet (IsAccounted w) (quiet-IsAccounted w) xs q

  with_session-IsAccounted :
      (id : Identity) (spec : TargetSpec) (d : Decision) (sid : String)
      → All (IsAccounted w) (with_session w id spec d sid)
  unfolding with_session
  with_session-IsAccounted id spec d sid =
      let run = proxy_channels d w.channels (no_totals w) in
      let rest = ending w sid run.1 (opened w d sid) in
      (
        tt,
        All-append (IsAccounted w) (opening w d sid) (run.0 ++ rest)
            (accounted _ (opening-IsQuiet d sid))
            (All-append (IsAccounted w) run.0 rest
              (accounted _ (proxy_channels-IsQuiet d w.channels (no_totals w)))
              (
                ground (arith, proxy_channels_lem d w.channels (no_totals w)),
                All-append (IsAccounted w) (closing w (opened w d sid))
                    (close_target ∷ remove_session sid ∷ close_user ∷ [])
                    (accounted _ (closing-IsQuiet (opened w d sid))) (tt, (tt, (tt, tt))),
              )),
      )

  with_session-Holds :
      (id : Identity) (spec : TargetSpec) (d : Decision) (sid : String) (r : SessionRecord)
      → Holds (start_session r ∷ with_session w id spec d sid)
  with_session-Holds id spec d sid r = (
    λ i. ground (arith, with_session-IsBalanced id spec d sid i),
    (tt, with_session-IsAccounted id spec d sid),
  )

  brokered-Holds :
      (id : Identity) (spec : TargetSpec) (d : Decision) (r : SessionRecord) (o : Option String)
      → Holds (start_session r ∷ brokered w id spec d o)
  unfolding brokered
  brokered-Holds id spec d r none = without_session-Holds d (start_session r) tt
  brokered-Holds id spec d r (some sid) =
      if_elim (λ effs. Holds (start_session r ∷ effs)) (sid == "")
        (λ e. without_session-Holds d (start_session r) tt)
        (λ e. with_session-Holds id spec d sid r)

  on_connect-Holds :
      (id : Identity) (spec : TargetSpec) (d : Decision) (o : Option ℕ)
      → Holds (on_connect w id spec d o)
  unfolding on_connect
  on_connect-Holds id spec d none =
      refused-Holds (unreachable w id spec d)
        ("sshbroker: could not connect to " +++ w.quote spec.host) tt
  on_connect-Holds id spec d (some serial) =
      brokered-Holds id spec d (session_record w id spec d serial) w.session_id

  on_authorize-Holds :
      (id : Identity) (spec : TargetSpec) (a : Authorization) → Holds (on_authorize w id spec a)
  unfolding on_authorize
  on_authorize-Holds id spec (deny why) =
      refused-Holds (denied w id spec why)
        ("sshbroker: not authorized to reach " +++ w.quote spec.host) tt
  on_authorize-Holds id spec (allow d) = on_connect-Holds id spec d (w.connect_target id spec d)

  on_parse-Holds : (id : Identity) (p : Parsed) → Holds (on_parse w id p)
  unfolding on_parse
  on_parse-Holds id (err e) =
      refused-Holds (rejected w id e) ("sshbroker: " +++ w.target_error_text e) tt
  on_parse-Holds id (ok spec) = on_authorize-Holds id spec (w.authorize id spec)

  on_handshake-Holds : (o : Option (Option (List (String × String)))) → Holds (on_handshake w o)
  unfolding on_handshake
  on_handshake-Holds none = quiet-Holds (close_user ∷ []) (tt, tt)
  on_handshake-Holds (some ext) = on_parse-Holds (identity_from ext) (parse_target w.user)

-- Whatever happens around a connection, a session is removed from the registry and ended in the database
-- as often as it is registered, and an end of a session tells the bytes and the last exit status that
-- its session channels had.
pub handle_conn-IsBalanced :
    (w : World)
    → ((sid : String) → IsBalanced sid (handle_conn w)) × All (IsAccounted w) (handle_conn w)
unfolding handle_conn
handle_conn-IsBalanced w = on_handshake-Holds w w.handshake
