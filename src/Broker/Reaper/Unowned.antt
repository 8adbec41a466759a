-- ===== src/Broker/Reaper/Unowned.antt =====
-- cmd/broker/main.go and internal/store/sessions_terminate.go: what ends a session that the broker recorded.
use ssh_access.Prelude.{
  ℕ, String, Bool, ◌&&◌, ◌==◌, ◌≡◌, refl, ap, ◌∙◌, Option, none, some, List, [], ◌∷◌, any, contains,
  is_some, arith, All, All-map, if_elim,
}
use ssh_access.Prelude.Int.{ℤ}
use ssh_access.Store.Sessions.{
  Session, SessionStart, Tables, create_session, end_session, request_session_termination,
  set_session_recording_url, set_session_recording_ref, update_session, set_user_status,
  sessions_to_terminate, is_active, has_session, Account,
}
use ssh_access.Store.Sessions.Doomed.{sessions_to_terminate_iff, must_end}
use ssh_access.Proxy.Effects.{SessionRecord}
use ssh_access.Broker.Adapter.{session_start}

-- What the broker and the API do to the rows of sessions, and a change of an account's status.
pub data Change : Type 0 where
  started : String → SessionRecord → Change
  ended : String → ℕ → ℕ → Option ℤ → ℕ → Change
  flagged : String → ℕ → Change
  recording_url recording_ref user_status : String → String → Change

abbrev or_same : Option Tables → Tables → Tables
or_same none t = t
or_same (some t') t = t'

unfoldable pub change : Change → Tables → Tables
change (started id r) t = create_session id (session_start r) t
change (ended id bytes_in bytes_out exit now) t = end_session id bytes_in bytes_out exit now t
change (flagged id now) t = or_same (request_session_termination id now t) t
change (recording_url id url) t = or_same (set_session_recording_url id url t) t
change (recording_ref id ref) t = or_same (set_session_recording_ref id ref t) t
change (user_status id status) t = or_same (set_user_status id status t) t

-- The tables after a history, which has its last change first, on tables without sessions.
unfoldable pub tables_after : List Account → List Account → List Change → Tables
tables_after users service_accounts [] = record {
  sessions = [];
  users = users;
  service_accounts = service_accounts;
}
tables_after users service_accounts (c ∷ earlier) =
    change c (tables_after users service_accounts earlier)

abbrev Unowned : Session → Type 0
Unowned s = s.start.subject_id ≡ none

Unowned-update :
    (id : String) (f : Session → Session) (t : Tables)
    → ((s : Session) → (f s).start ≡ s.start)
    → All Unowned t.sessions
    → All Unowned (update_session id f t).sessions
Unowned-update id f t h a =
    All-map Unowned Unowned _
      (λ s u.
        if_elim Unowned (s.id == id) (λ e. ap (λ (q : SessionStart). q.subject_id) (h s) ∙ u)
          (λ e. u))
      t.sessions a

change-Unowned :
    (c : Change) (t : Tables) → All Unowned t.sessions → All Unowned (change c t).sessions
unfolding change create_session session_start end_session request_session_termination
    set_session_recording_url set_session_recording_ref set_user_status
change-Unowned (started id r) t a = (refl, a)
change-Unowned (ended id bytes_in bytes_out exit now) t a = Unowned-update id _ t (λ s. refl) a
change-Unowned (flagged id now) t a =
    if_elim (λ o. All Unowned (or_same o t).sessions) (any (is_active id) t.sessions)
      (λ e.
        All-map Unowned Unowned _ (λ s u. if_elim Unowned (is_active id s) (λ k. u) (λ k. u))
          t.sessions a)
      (λ e. a)
change-Unowned (recording_url id url) t a =
    if_elim (λ o. All Unowned (or_same o t).sessions) (has_session id t)
      (λ e. Unowned-update id _ t (λ s. refl) a) (λ e. a)
change-Unowned (recording_ref id ref) t a =
    if_elim (λ o. All Unowned (or_same o t).sessions) (has_session id t)
      (λ e. Unowned-update id _ t (λ s. refl) a) (λ e. a)
change-Unowned (user_status id status) t a =
    if_elim (λ o. All Unowned (or_same o t).sessions) (any (λ (u : Account). u.id == id) t.users)
      (λ e. a) (λ e. a)

tables_after-Unowned :
    (users service_accounts : List Account) (h : List Change)
    → All Unowned (tables_after users service_accounts h).sessions
unfolding tables_after
tables_after-Unowned users service_accounts [] = tt
tables_after-Unowned users service_accounts (c ∷ earlier) =
    change-Unowned c _ (tables_after-Unowned users service_accounts earlier)

-- The session has this id, is active and is flagged.
abbrev pub is_flagged : String → Session → Bool
is_flagged id s = is_active id s && is_some s.terminate_requested

Unowned-must_end :
    (id : String) (t : Tables) (rows : List Session)
    → All Unowned rows
    → any (must_end id t) rows ≡ any (is_flagged id) rows
Unowned-must_end id t [] a = refl
Unowned-must_end id t (s ∷ rows) (u, a) = ground (arith, u, Unowned-must_end id t rows a)

-- Whatever was done to the sessions that the broker recorded and to the status of users, the query for
-- the sessions to end returns an id that it is asked for exactly when an active session of the id is
-- flagged: the status of the accounts has no part in it.
pub reaped_iff_flagged :
    (users service_accounts : List Account) (h : List Change) (ids : List String) (id : String)
    → contains (sessions_to_terminate ids (tables_after users service_accounts h)) id
      ≡ (contains ids id && any (is_flagged id) (tables_after users service_accounts h).sessions)
reaped_iff_flagged users service_accounts h ids id =
    let t = tables_after users service_accounts h in
    sessions_to_terminate_iff ids t id
    ∙ ap (λ b. contains ids id && b)
        (Unowned-must_end id t t.sessions (tables_after-Unowned users service_accounts h))
