-- ===== src/Api/Management/Settled.antt =====
-- internal/api/handlers.go: a handler changes something only where it reports success.
use ssh_access.Prelude.{
  arith, ℕ, ◌≤◌, ◌≡◌, ◌⊎◌, inl, inr, refl, String, Bool, Option, none, some, List, [],
  if◌then◌else◌, if_elim,
}
use ssh_access.Auth.Rbac.{Principal}
use ssh_access.Store.Audit.{AuditEvent}
use ssh_access.Store.Servers.{StoreResult, ok, err, not_found, conflict, failed}
use ssh_access.Api.Db.{Db, ApiCalls, Handled, refuse, answer, write_store_error}
use ssh_access.Api.UserHandlers.{
  CreateUserBody, AddKeyBody, create_user_handler, patch_user, add_user_key_handler,
  delete_user_handler,
}
use ssh_access.Api.ServerHandlers.{
  CreateServerBody, create_server_handler, patch_server, delete_server_handler,
  create_group_handler, add_user_group_member, add_server_group_member, terminate_session,
}
use ssh_access.Api.GrantHandlers.{
  CreateGrantBody, PatchGrantBody, resolve_review_by, patched_review, reviewed_grant, lacks_fields,
  invalid_review_date, create_grant_handler, patch_grant, recertify_grant, delete_grant_handler,
}
use ssh_access.Api.Management.{
  Request, post_users, patch_users, delete_users, post_user_keys, post_servers, patch_servers,
  delete_servers, post_grants, patch_grants, delete_grants, post_recertify, post_user_groups,
  post_user_group_members, post_server_groups, post_server_group_members, post_terminate, handle,
}
use ssh_access.Store.Profiles.{UpdateUserInput}

-- An error, with nothing changed and nothing recorded.
abbrev pub IsRefusal : Db → Handled → Type 0
IsRefusal db h = (400 ≤ h.response.status) × (h.db ≡ db) × (h.events ≡ [])

abbrev pub IsSettled : Db → Handled → Type 0
IsSettled db h = IsRefusal db h ⊎ ((h.response.status ≡ 200) ⊎ (h.response.status ≡ 201))

refuse-IsSettled :
    (status : ℕ) (msg : String) (db : Db) → 400 ≤ status → IsSettled db (refuse status msg db)
unfolding refuse
refuse-IsSettled status msg db h = inl (h, refl, refl)

answer-IsSettled :
    (r : StoreResult Db) (status : ℕ) (body : List (String × String)) (events : List AuditEvent)
    (db : Db)
    → (status ≡ 200) ⊎ (status ≡ 201)
    → IsSettled db (answer r status body events db)
unfolding answer write_store_error
answer-IsSettled (ok db') status body events db h = inr h
answer-IsSettled (err not_found) status body events db h = inl (omega arith, refl, refl)
answer-IsSettled (err conflict) status body events db h = inl (omega arith, refl, refl)
answer-IsSettled (err failed) status body events db h = inl (omega arith, refl, refl)

-- The shapes that the handlers share: a body that is checked, and one that is not.
checked :
    (test : Bool) (msg : String) (r : StoreResult Db) (status : ℕ) (body : List (String × String))
    (db : Db)
    → (status ≡ 200) ⊎ (status ≡ 201)
    → IsSettled db (if test then refuse 400 msg db else answer r status body [] db)
checked test msg r status body db h =
    if_elim (IsSettled db) test (λ _. refuse-IsSettled 400 msg db (omega arith))
      (λ _. answer-IsSettled r status body [] db h)

bad_body : (db : Db) (msg : String) → IsSettled db (refuse 400 msg db)
bad_body db msg = refuse-IsSettled 400 msg db (omega arith)

-- A step that may be missing.
on_option :
    {A : Type 0} (db : Db) (o : Option A) (z : Handled) (f : A → Handled)
    → IsSettled db z
    → ((a : A) → IsSettled db (f a))
    → IsSettled db (elim o [ none ↦ z | some a ↦ f a ])
on_option db none z f h k = h
on_option db (some a) z f h k = k a

abbrev invalid_json : String
invalid_json = "invalid JSON body"

module _ (calls : ApiCalls) (db : Db) where
  create_user-IsSettled :
      (b : Option CreateUserBody) → IsSettled db (create_user_handler calls b db)
  unfolding create_user_handler
  create_user-IsSettled none = bad_body db invalid_json
  create_user-IsSettled (some b) = checked _ "username is required" _ _ _ db (inr refl)

  patch_user-IsSettled :
      (id : String) (b : Option UpdateUserInput) → IsSettled db (patch_user id b db)
  unfolding patch_user
  patch_user-IsSettled id none = bad_body db invalid_json
  patch_user-IsSettled id (some b) =
      checked _ "status must be active or disabled" _ _ _ db (inl refl)

  add_user_key-IsSettled :
      (id : String) (b : Option AddKeyBody) → IsSettled db (add_user_key_handler calls id b db)
  unfolding add_user_key_handler
  add_user_key-IsSettled id none = bad_body db invalid_json
  add_user_key-IsSettled id (some b) =
      on_option db (calls.parse_authorized_key b.public_key) _ _ (bad_body db "invalid public key")
        (λ k. answer-IsSettled _ _ _ _ db (inr refl))

  create_server-IsSettled :
      (b : Option CreateServerBody) → IsSettled db (create_server_handler calls b db)
  unfolding create_server_handler
  create_server-IsSettled none = bad_body db invalid_json
  create_server-IsSettled (some b) =
      checked _ "hostname and address are required" _ _ _ db (inr refl)

  reviewed_grant-IsSettled :
      (b : CreateGrantBody) (review : Option ℕ) → IsSettled db (reviewed_grant calls b db review)
  reviewed_grant-IsSettled b none = bad_body db invalid_review_date
  reviewed_grant-IsSettled b (some t) = answer-IsSettled _ _ _ _ db (inr refl)

  create_grant-IsSettled :
      (b : Option CreateGrantBody) → IsSettled db (create_grant_handler calls b db)
  unfolding create_grant_handler
  create_grant-IsSettled none = bad_body db invalid_json
  create_grant-IsSettled (some b) =
      if_elim (IsSettled db) (lacks_fields b)
        (λ _. bad_body db "subject_id, target_id, and principals are required")
        (λ _. reviewed_grant-IsSettled b (resolve_review_by calls b.review_by))

  patch_grant-IsSettled :
      (id : String) (b : Option PatchGrantBody) → IsSettled db (patch_grant calls id b db)
  unfolding patch_grant
  patch_grant-IsSettled id none = bad_body db invalid_json
  patch_grant-IsSettled id (some b) =
      on_option db (patched_review calls b.review_by) _ _ (bad_body db invalid_review_date)
        (λ t. answer-IsSettled _ _ _ _ db (inl refl))

  create_group-IsSettled :
      (create : String → Db → StoreResult Db) (name : Option String)
      → IsSettled db (create_group_handler calls create name db)
  unfolding create_group_handler
  create_group-IsSettled create none = bad_body db invalid_json
  create_group-IsSettled create (some name) = checked _ "name is required" _ _ _ db (inr refl)

  add_user_group_member-IsSettled :
      (group : String) (user : Option String) → IsSettled db (add_user_group_member group user db)
  unfolding add_user_group_member
  add_user_group_member-IsSettled group none = bad_body db "user_id is required"
  add_user_group_member-IsSettled group (some user) =
      checked _ "user_id is required" _ _ _ db (inl refl)

  add_server_group_member-IsSettled :
      (group : String) (server : Option String)
      → IsSettled db (add_server_group_member group server db)
  unfolding add_server_group_member
  add_server_group_member-IsSettled group none = bad_body db "server_id is required"
  add_server_group_member-IsSettled group (some server) =
      checked _ "server_id is required" _ _ _ db (inl refl)

  -- Every handler either reports an error and changes nothing, or reports success.
  pub handle-IsSettled : (p : Principal) (r : Request) → IsSettled db (handle calls p r db)
  unfolding handle
  handle-IsSettled p (post_users b) = create_user-IsSettled b
  handle-IsSettled p (patch_users id b) = patch_user-IsSettled id b
  handle-IsSettled p (delete_users id) =
      unfold delete_user_handler in answer-IsSettled _ _ _ _ db (inl refl)
  handle-IsSettled p (post_user_keys id b) = add_user_key-IsSettled id b
  handle-IsSettled p (post_servers b) = create_server-IsSettled b
  handle-IsSettled p (patch_servers id none) = unfold patch_server in bad_body db invalid_json
  handle-IsSettled p (patch_servers id (some b)) =
      unfold patch_server in answer-IsSettled _ _ _ _ db (inl refl)
  handle-IsSettled p (delete_servers id) =
      unfold delete_server_handler in answer-IsSettled _ _ _ _ db (inl refl)
  handle-IsSettled p (post_grants b) = create_grant-IsSettled b
  handle-IsSettled p (patch_grants id b) = patch_grant-IsSettled id b
  handle-IsSettled p (delete_grants id) =
      unfold delete_grant_handler in answer-IsSettled _ _ _ _ db (inl refl)
  handle-IsSettled p (post_recertify id) =
      unfold recertify_grant in answer-IsSettled _ _ _ _ db (inl refl)
  handle-IsSettled p (post_user_groups b) = create_group-IsSettled _ b
  handle-IsSettled p (post_user_group_members id b) = add_user_group_member-IsSettled id b
  handle-IsSettled p (post_server_groups b) = create_group-IsSettled _ b
  handle-IsSettled p (post_server_group_members id b) = add_server_group_member-IsSettled id b
  handle-IsSettled p (post_terminate id) =
      unfold terminate_session in answer-IsSettled _ _ _ _ db (inl refl)
