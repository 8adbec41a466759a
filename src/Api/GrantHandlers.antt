-- ===== src/Api/GrantHandlers.antt =====
-- internal/api/handlers.go: the handlers that change grants, and the state of their review. A body that
-- does not decode is `none`.
pub mod Seconds
use ssh_access.Prelude.{
  leb, ℕ, ◌+◌, ◌-◌, ◌*◌, ◌/◌, ◌%◌, ◌^◌, String, Bool, true, not, ◌&&◌, ◌||◌, ◌==◌, Option, none,
  some, List, [], ◌∷◌, is_empty, ltb, if◌then◌else◌,
}
use ssh_access.Prelude.Int.{ℤ, pos, negsuc}
use ssh_access.Store.Grants.{
  ttl_seconds, CreateGrantInput, UpdateGrantInput, create_grant, update_grant, delete_grant, second,
}
use ssh_access.Store.Servers.{StoreResult, ok, err, not_found, failed}
use ssh_access.Auth.Rbac.{Principal}
use ssh_access.Api.Db.{Db, ApiCalls, Handled, refuse, answer, within, required}

abbrev pub day : ℕ
day = 24 * 3600 * second

abbrev pub review_due_soon_days : ℕ
review_due_soon_days = 14

-- reviewStatus, of times in nanoseconds, which Truncate cuts to days
unfoldable pub review_status : Option ℕ → ℕ → String
review_status none now = "none"
review_status (some review_by) now =
    let due = review_by / day in
    let today = now / day in
    if ltb due today
    then "overdue"
    else if ltb due (today + review_due_soon_days)
    then "due_soon"
    else "ok"

-- A number of nanoseconds as an int64.
unfoldable pub wrap_int64 : ℤ → ℤ
wrap_int64 (pos n) = let m = n % 2 ^ 64 in if ltb m (2 ^ 63) then pos m else negsuc (2 ^ 64 - m - 1)
wrap_int64 (negsuc n) =
    let m = n % 2 ^ 64 in if ltb m (2 ^ 63) then negsuc m else pos (2 ^ 64 - m - 1)

-- time.Duration(s) * time.Second
unfoldable pub seconds_duration : ℤ → ℤ
unfolding wrap_int64
seconds_duration (pos n) = wrap_int64 (pos (n * second))
seconds_duration (negsuc n) = wrap_int64 (negsuc (n * second + second - 1))

abbrev default_review : ApiCalls → ℕ
default_review calls = calls.add_days calls.review_interval_days calls.now

abbrev parsed_review : ApiCalls → String → Option ℕ
parsed_review calls raw = elim (calls.parse_date raw) [
  | some t ↦ some t
  | none ↦ calls.parse_rfc3339 raw
]

-- resolveReviewBy; `none` is errInvalidReviewDate.
unfoldable pub resolve_review_by : ApiCalls → Option String → Option ℕ
resolve_review_by calls none = some (default_review calls)
resolve_review_by calls (some raw) =
    if raw == "" then some (default_review calls) else parsed_review calls raw

pub record CreateGrantBody : Type 0 where
  pub subject_type : String
  pub subject_id : String
  pub target_type : String
  pub target_id : String
  pub principals : List String
  pub max_ttl_seconds : ℤ
  pub shell : Bool
  pub exec : Bool
  pub sftp : Bool
  pub recording : String
  pub review_by : Option String

abbrev pub grant_input : CreateGrantBody → ℕ → CreateGrantInput
grant_input b review_by = record {
  subject_type = b.subject_type;
  subject_id = b.subject_id;
  target_type = b.target_type;
  target_id = b.target_id;
  principals = b.principals;
  max_ttl = seconds_duration b.max_ttl_seconds;
  allow_shell = b.shell;
  allow_exec = b.exec;
  allow_sftp = b.sftp;
  recording = b.recording;
  review_by = some review_by;
}

-- The parameter of make_interval is an int4.
abbrev pub fits_int4 : ℤ → Bool
fits_int4 d = leb (ttl_seconds d) (2 ^ 31 - 1)

-- The enumerations and the number of the schema that CreateGrant casts to.
abbrev pub casts : CreateGrantInput → Bool
casts b =
    (b.subject_type == "user"
      || b.subject_type == "user_group"
      || b.subject_type == "service_account")
    && (b.target_type == "server" || b.target_type == "server_group")
    && (b.recording == "" || b.recording == "metadata" || b.recording == "full")
    && fits_int4 b.max_ttl

abbrev insert_grant : String → CreateGrantBody → ℕ → Db → StoreResult Db
insert_grant id b review_by db =
    if casts (grant_input b review_by)
    then ok (record db { grants = create_grant id (grant_input b review_by) db.grants })
    else err failed

abbrev pub invalid_review_date : String
invalid_review_date = "review_by must be YYYY-MM-DD or RFC3339"

-- createGrant from the review date on
abbrev pub reviewed_grant : ApiCalls → CreateGrantBody → Db → Option ℕ → Handled
reviewed_grant calls b db none = refuse 400 invalid_review_date db
reviewed_grant calls b db (some review_by) =
    answer (insert_grant calls.new_id b review_by db) 201 (("id", calls.new_id) ∷ []) [] db

abbrev pub lacks_fields : CreateGrantBody → Bool
lacks_fields b = b.subject_id == "" || b.target_id == "" || is_empty b.principals

-- createGrant
unfoldable pub create_grant_handler : ApiCalls → Option CreateGrantBody → Db → Handled
unfolding refuse answer resolve_review_by
create_grant_handler calls none db = refuse 400 "invalid JSON body" db
create_grant_handler calls (some b) db =
    if lacks_fields b
    then refuse 400 "subject_id, target_id, and principals are required" db
    else reviewed_grant calls b db (resolve_review_by calls b.review_by)

pub record PatchGrantBody : Type 0 where
  pub principals : Option (List String)
  pub max_ttl_seconds : Option ℤ
  pub shell : Option Bool
  pub exec : Option Bool
  pub sftp : Option Bool
  pub recording : Option String
  pub review_by : Option String

abbrev duration_option : Option ℤ → Option ℤ
duration_option none = none
duration_option (some s) = some (seconds_duration s)

abbrev pub patch_input : PatchGrantBody → Option ℕ → UpdateGrantInput
patch_input b review_by = record {
  principals = b.principals;
  max_ttl = duration_option b.max_ttl_seconds;
  allow_shell = b.shell;
  allow_exec = b.exec;
  allow_sftp = b.sftp;
  recording = b.recording;
  review_by = review_by;
}

abbrev recording_casts : Option String → Bool
recording_casts none = true
recording_casts (some r) = r == "metadata" || r == "full"

abbrev ttl_casts : Option ℤ → Bool
ttl_casts none = true
ttl_casts (some d) = fits_int4 d

abbrev edit_grant : String → UpdateGrantInput → Db → StoreResult Db
edit_grant id input db =
    if not (recording_casts input.recording && ttl_casts input.max_ttl)
    then err failed
    else within (required (update_grant id input db.grants) not_found)
        (λ grants. record db { grants = grants })

-- The review date of a patch; the outer `none` is errInvalidReviewDate.
abbrev pub patched_review : ApiCalls → Option String → Option (Option ℕ)
patched_review calls none = some none
patched_review calls (some raw) = elim (resolve_review_by calls (some raw)) [
  | none ↦ none
  | some t ↦ some (some t)
]

-- patchGrant
unfoldable pub patch_grant : ApiCalls → String → Option PatchGrantBody → Db → Handled
unfolding refuse answer
patch_grant calls id none db = refuse 400 "invalid JSON body" db
patch_grant calls id (some b) db = elim (patched_review calls b.review_by) [
  | none ↦ refuse 400 invalid_review_date db
  | some review_by ↦
      answer (edit_grant id (patch_input b review_by) db) 200 (("status", "updated") ∷ []) [] db
]

abbrev pub review_only : ℕ → UpdateGrantInput
review_only t = record {
  principals = none;
  max_ttl = none;
  allow_shell = none;
  allow_exec = none;
  allow_sftp = none;
  recording = none;
  review_by = some t;
}

abbrev pub actor_or : String → Option Principal → String
actor_or fallback none = fallback
actor_or fallback (some p) = p.subject

-- recertifyGrant, whose response gives the date in JSON's format
unfoldable pub recertify_grant : ApiCalls → Option Principal → String → Db → Handled
unfolding answer
recertify_grant calls p id db =
    let new_review = default_review calls in
    answer (edit_grant id (review_only new_review) db) 200
      (("status", "recertified")
        ∷ ("review_by", calls.format_date new_review)
        ∷ ("review_status", review_status (some new_review) calls.now)
        ∷ [])
      (record {
        actor = actor_or "api" p;
        event_type = "grant.recertified";
        target = id;
        detail = ("grant_id", id) ∷ ("review_by", calls.format_date new_review) ∷ [];
      }
        ∷ [])
      db

-- deleteGrant
unfoldable pub delete_grant_handler : String → Db → Handled
unfolding answer
delete_grant_handler id db =
    answer
      (within (required (delete_grant id db.grants) not_found)
        (λ grants. record db { grants = grants }))
      200 (("status", "deleted") ∷ []) [] db
