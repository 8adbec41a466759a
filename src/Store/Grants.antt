-- ===== src/Store/Grants.antt =====
-- internal/store/repositories.go and updates.go: grants, servers, groups and their queries. A statement is
-- one step on the tables. A UUID that does not parse is an error of the database and is left out; ids
-- are the strings that the database gives.
use ssh_access.Prelude.{
  ℕ, eqb, ◌/◌, ◌*◌, String, Bool, true, false, ◌&&◌, ◌||◌, not, ◌==◌, Option, none, some, List, ◌∷◌,
  map, any, filter, contains, if◌then◌else◌,
}
use ssh_access.Prelude.Int.{ℤ, pos, negsuc}

-- A row of grants; `max_ttl` is in seconds.
pub record GrantRow : Type 0 where
  pub id : String
  pub subject_type : String
  pub subject_id : String
  pub target_type : String
  pub target_id : String
  pub principals : List String
  pub max_ttl : ℕ
  pub allow_shell : Bool
  pub allow_exec : Bool
  pub allow_sftp : Bool
  pub recording : String
  pub review_by : Option ℕ

pub record CreateGrantInput : Type 0 where
  pub subject_type : String
  pub subject_id : String
  pub target_type : String
  pub target_id : String
  pub principals : List String
  pub max_ttl : ℤ
  pub allow_shell : Bool
  pub allow_exec : Bool
  pub allow_sftp : Bool
  pub recording : String
  pub review_by : Option ℕ

abbrev pub second : ℕ
second = 1000000000

-- int(d / time.Second), with 300 where it is not positive; division truncates towards zero.
unfoldable pub ttl_seconds : ℤ → ℕ
ttl_seconds (negsuc n) = 300
ttl_seconds (pos n) = let secs = n / second in if eqb secs 0 then 300 else secs

-- CreateGrant, with the id given to the new row
unfoldable pub create_grant : String → CreateGrantInput → List GrantRow → List GrantRow
unfolding ttl_seconds
create_grant id input rows =
    record {
      id = id;
      subject_type = input.subject_type;
      subject_id = input.subject_id;
      target_type = input.target_type;
      target_id = input.target_id;
      principals = input.principals;
      max_ttl = ttl_seconds input.max_ttl;
      allow_shell = input.allow_shell;
      allow_exec = input.allow_exec;
      allow_sftp = input.allow_sftp;
      recording = (if input.recording == "" then "metadata" else input.recording);
      review_by = input.review_by;
    }
    ∷ rows

pub record Grant : Type 0 where
  pub id : String
  pub principals : List String
  pub max_ttl : ℤ
  pub allow_shell : Bool
  pub allow_exec : Bool
  pub allow_sftp : Bool
  pub recording : String

-- The WHERE clause of MatchingGrants.
abbrev pub matches : String → String → List String → String → List String → GrantRow → Bool
matches subject_type subject_id user_groups server server_groups g =
    ((g.subject_type == subject_type && g.subject_id == subject_id)
      || (g.subject_type == "user_group" && contains user_groups g.subject_id))
    && ((g.target_type == "server" && g.target_id == server)
        || (g.target_type == "server_group" && contains server_groups g.target_id))

abbrev pub grant_of : GrantRow → Grant
grant_of g = record {
  id = g.id;
  principals = g.principals;
  max_ttl = pos (g.max_ttl * second);
  allow_shell = g.allow_shell;
  allow_exec = g.allow_exec;
  allow_sftp = g.allow_sftp;
  recording = g.recording;
}

-- MatchingGrants
unfoldable pub matching_grants :
    String → String → List String → String → List String → List GrantRow → List Grant
matching_grants subject_type subject_id user_groups server server_groups rows =
    map grant_of (filter (matches subject_type subject_id user_groups server server_groups) rows)

pub record UpdateGrantInput : Type 0 where
  pub principals : Option (List String)
  pub max_ttl : Option ℤ
  pub allow_shell : Option Bool
  pub allow_exec : Option Bool
  pub allow_sftp : Option Bool
  pub recording : Option String
  pub review_by : Option ℕ

abbrev pub or_else {ℓ} : {A : Type ℓ} → Option A → A → A
or_else none a = a
or_else (some b) a = b

abbrev ttl_or_else : Option ℤ → ℕ → ℕ
ttl_or_else none n = n
ttl_or_else (some d) n = ttl_seconds d

abbrev review_or_else : Option ℕ → Option ℕ → Option ℕ
review_or_else none old = old
review_or_else (some t) old = some t

abbrev pub updated_grant : UpdateGrantInput → GrantRow → GrantRow
updated_grant input g = record g {
  principals = or_else input.principals g.principals;
  max_ttl = ttl_or_else input.max_ttl g.max_ttl;
  allow_shell = or_else input.allow_shell g.allow_shell;
  allow_exec = or_else input.allow_exec g.allow_exec;
  allow_sftp = or_else input.allow_sftp g.allow_sftp;
  recording = or_else input.recording g.recording;
  review_by = review_or_else input.review_by g.review_by;
}

abbrev pub has_grant_id : String → GrantRow → Bool
has_grant_id id g = g.id == id

abbrev is_none {ℓ} : {A : Type ℓ} → Option A → Bool
is_none none = true
is_none (some a) = false

-- len(b.sets) == 0
abbrev pub changes_nothing : UpdateGrantInput → Bool
changes_nothing input =
    is_none input.principals
    && is_none input.max_ttl
    && is_none input.allow_shell
    && is_none input.allow_exec
    && is_none input.allow_sftp
    && is_none input.recording
    && is_none input.review_by

-- UpdateGrant; `none` is ErrNotFound. Without a field to change, it succeeds even on a missing grant.
unfoldable pub update_grant : String → UpdateGrantInput → List GrantRow → Option (List GrantRow)
update_grant id input rows =
    if changes_nothing input
    then some rows
    else if any (has_grant_id id) rows
    then some (map (λ g. if has_grant_id id g then updated_grant input g else g) rows)
    else none

-- DeleteGrant
unfoldable pub delete_grant : String → List GrantRow → Option (List GrantRow)
delete_grant id rows =
    if any (has_grant_id id) rows then some (filter (λ g. not (has_grant_id id g)) rows) else none

-- deleteWithDirectGrants, on a table of which the ids matter here: the grants that the WHERE clause names
-- go with the row; without a row, the transaction is rolled back.
unfoldable pub delete_with_direct_grants :
    (GrantRow → Bool) → String → List String × List GrantRow → Option (List String × List GrantRow)
delete_with_direct_grants names id (ids, rows) =
    if contains ids id
    then some (filter (λ i. not (i == id)) ids, filter (λ g. not (names g)) rows)
    else none

-- DeleteUser
unfoldable pub delete_user :
    String → List String × List GrantRow → Option (List String × List GrantRow)
unfolding delete_with_direct_grants
delete_user id db =
    delete_with_direct_grants (λ g. g.subject_type == "user" && g.subject_id == id) id db

-- DeleteServer
unfoldable pub delete_server :
    String → List String × List GrantRow → Option (List String × List GrantRow)
unfolding delete_with_direct_grants
delete_server id db =
    delete_with_direct_grants (λ g. g.target_type == "server" && g.target_id == id) id db
