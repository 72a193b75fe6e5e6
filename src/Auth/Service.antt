-- ===== src/Auth/Service.antt =====
-- `AuthService` of backend/src/features/authentication/auth_service.rs. A call has one time, `now`,
-- and draws at most one session id and one refresh token, its `Draw`. The database's answer to
-- `resolve` is taken at the time of the call.

use kitaza.Common.{
  ℕ, String, ◌+◌, ◌*◌, Bool, false, ◌||◌, not, Option, none, some, List, [], ◌∷◌, leb, select,
  if◌then◌else◌, is_some, ◌==◌,
}
use kitaza.Common.Failure.{ApiResult, ok, err, ApiError, unauthorized, not_found}
use kitaza.Common.Sort.{sort}
use kitaza.Billing.Plan.{nanos_per_second}
use kitaza.Access.Permission.{Permission, to_list}
use kitaza.Access.Actor.{Actor, staff_id, permissions, is_owner}
use kitaza.Access.Sessions.{Remembered, resolve, forget_all}
use kitaza.Auth.Tables.{RefreshTokenRecord, AccountTables, StoreRecord}
use kitaza.Auth.Devices.{
  find_owner_by_id, find_refresh_token, mark_rotated, touch_session, store_refresh_token,
  end_session_for_token,
}
use kitaza.Auth.Staff.{find_store}
use kitaza.Auth.Directory.{database}

-- What the libraries give: SHA-256 read as a number, of a string and of a list of code points, argon2, the signed access token of an owner
-- and a session, and Rust's functions on strings. `show` writes a number. `refresh_lifetime` is a setting.
pub record AuthEnv : Type 0 where
  pub trim : String → String
  pub to_lowercase : String → String
  pub take_chars : ℕ → String → String
  pub sha256 : String → ℕ
  pub sha256_text : List ℕ → ℕ
  pub hash_password : String → ApiResult String
  pub verify_password : String → String → Bool
  pub issue_access_token : ℕ → ℕ → ℕ → ApiResult String
  pub show : ℕ → String
  pub refresh_lifetime : ℕ

pub record Draw : Type 0 where
  pub session : ℕ
  pub refresh_token : String

-- What this instance of the server keeps: the database, and what it remembers of sessions.
pub record Server : Type 0 where
  pub tables : AccountTables
  pub resolved : Remembered

pub data MemberRole : Type 0 where
  owner staff : MemberRole

pub record AccessSummary : Type 0 where
  pub role : MemberRole
  pub staff_id : Option ℕ
  pub display_name : String
  pub permissions : List Permission

pub record AccountView : Type 0 where
  pub id : ℕ
  pub email : Option String
  pub full_name : String
  pub stores : List StoreRecord
  pub access : AccessSummary

pub record AuthenticatedSession : Type 0 where
  pub access_token : String
  pub refresh_token : String
  pub session_id : ℕ
  pub account : AccountView

-- `ROTATION_GRACE`
abbrev pub rotation_grace : ℕ
rotation_grace = 24 * 3_600 * nanos_per_second

-- `sign_in_again`
abbrev pub sign_in_again : ApiError
sign_in_again = unauthorized "please sign in again"

-- `AccessSummary::of`
unfoldable pub access_summary : Actor → AccessSummary
unfolding is_owner staff_id permissions
access_summary actor = record {
  role = if is_owner actor then MemberRole.owner else MemberRole.staff;
  staff_id = staff_id actor;
  display_name = actor.name;
  permissions = to_list (permissions actor);
}

abbrev created_first : StoreRecord → StoreRecord → Bool
created_first a b = leb a.created_at b.created_at

-- `list_stores`
abbrev pub list_stores : ℕ → AccountTables → List StoreRecord
list_stores owner_id t = sort created_first (select (λ s. s.owner_id == owner_id) t.stores)

-- `account`. The subscription's summary is left out: it is `summary` of the actor's own.
unfoldable pub account : Actor → AccountTables → ApiResult AccountView
unfolding access_summary
account actor t = elim (find_owner_by_id actor.owner_id t) [
  | none ↦ err (not_found "account")
  | some person ↦ ok (elim actor.staff [
    | none ↦ record {
      id = person.id;
      email = some person.email;
      full_name = person.full_name;
      stores = list_stores person.id t;
      access = access_summary actor;
    }
    | some grant ↦ record {
      id = person.id;
      email = none;
      full_name = person.full_name;
      stores = elim (find_store grant.store_id t) [ none ↦ [] | some store ↦ store ∷ [] ];
      access = access_summary actor;
    }
  ])
]

-- `rotated_long_ago`
abbrev pub rotated_long_ago : Option ℕ → ℕ → Bool
rotated_long_ago none now = false
rotated_long_ago (some at) now = leb (at + rotation_grace) now

-- The condition under which `refresh` refuses a token that it found.
unfoldable pub refuses : RefreshTokenRecord → ℕ → Bool
refuses found now =
    is_some found.revoked_at
    || leb found.expires_at now
    || rotated_long_ago found.rotated_at now
    || not found.session_live
    || not found.staff_live

module _ (env : AuthEnv) where
  -- `issue`
  unfoldable pub issue : Draw → ℕ → Actor → Server → ApiResult AuthenticatedSession × Server
  unfolding store_refresh_token account
  issue draw now actor srv = elim (env.issue_access_token actor.owner_id actor.session_id now) [
    | err e ↦ (err e, srv)
    | ok access_token ↦
        let (stored, t) =
          store_refresh_token actor.owner_id actor.session_id (env.sha256 draw.refresh_token)
            (now + env.refresh_lifetime) srv.tables in
        let srv' = record srv { tables = t } in
        elim stored [
          | err e ↦ (err e, srv')
          | ok _ ↦ elim (account actor t) [
            | err e ↦ (err e, srv')
            | ok view ↦ (
              ok (record {
                access_token = access_token;
                refresh_token = draw.refresh_token;
                session_id = actor.session_id;
                account = view;
              }),
              srv',
            )
          ]
        ]
  ]

  -- `refresh`
  unfoldable pub refresh : Draw → ℕ → String → Server → ApiResult AuthenticatedSession × Server
  unfolding find_refresh_token refuses mark_rotated touch_session resolve database issue
  refresh draw now refresh_token srv =
      let hash = env.sha256 refresh_token in
      elim (find_refresh_token hash srv.tables) [
        | none ↦ (err sign_in_again, srv)
        | some found ↦
            if refuses found now
            then (err sign_in_again, srv)
            else let t = touch_session found.session_id now (mark_rotated hash now srv.tables) in
              let (actor, m) = resolve (database t) found.session_id now now srv.resolved in
              let srv' : Server = record { tables = t; resolved = m } in
              elim actor [ none ↦ (err sign_in_again, srv') | some a ↦ issue draw now a srv' ]
      ]

  -- `logout`
  unfoldable pub logout : ℕ → String → Server → ApiResult (Unit {0}) × Server
  unfolding end_session_for_token
  logout now refresh_token srv = (
    ok tt,
    record {
      tables = end_session_for_token (env.sha256 refresh_token) now srv.tables;
      resolved = forget_all srv.resolved;
    },
  )
