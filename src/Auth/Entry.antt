-- ===== src/Auth/Entry.antt =====
-- The ways in: `login`, `join` and `register` of
-- backend/src/features/authentication/auth_service.rs, and `create_owner_with_store` of
-- auth_repository.rs.
pub mod Laws
use text.Mathlib.Text.{◌==◌ as str_eq}
use Prim.Native.String.{◌++◌}
use kitaza.Common.{
  ℕ, String, ◌+◌, Bool, true, false, ◌||◌, not, Option, none, some, List, [], ◌∷◌, find, any,
  if◌then◌else◌, is_some, unwrap_or, ◌==◌,
}
use kitaza.Common.Failure.{
  ApiResult, ok, err, ApiError, unauthorized, conflict, internal, too_many_requests,
}
use kitaza.Billing.Gate.{check_staff}
use kitaza.Billing.Plan.{SubscriptionRecord}
use kitaza.Access.Actor.{Actor}
use kitaza.Access.Sessions.{resolve}
use kitaza.Services.Request.{Effect, audit}
use kitaza.Services.Request
use kitaza.Privacy.Consents.{ConsentRecord, check_registration_consent, record_registration_consent}
use kitaza.Auth.Tables.{OwnerRecord, StoreRecord, AccountTables}
use kitaza.Auth.Devices.{open_session, purge_dead_sessions}
use kitaza.Auth.Staff.{owner_of_code, redeem, RedeemedInvite}
use kitaza.Auth.Directory.{database}
use kitaza.Auth.Service.{AuthEnv, Draw, Server, AuthenticatedSession, issue}
use kitaza.Auth.JoinCode.{Text}
use kitaza.Auth.Staffing.{fingerprint, Reply}
use kitaza.Auth.RateLimiter.{RateLimiter, check, reset, allowed, exceeded}

pub record LoginRequest : Type 0 where
  pub email : String
  pub password : String
  pub device_tag : Option String
  pub device_name : Option String

pub record JoinRequest : Type 0 where
  pub code : Text
  pub device_tag : Option String
  pub device_name : Option String

pub record RegisterRequest : Type 0 where
  pub email : String
  pub password : String
  pub full_name : String
  pub store_name : String
  pub business_type : Option String
  pub device_tag : Option String
  pub device_name : Option String
  pub accepted_privacy_version : Option String
  pub accepted_terms_version : Option String

-- `invalid_credentials`
abbrev pub invalid_credentials : ApiError
invalid_credentials = unauthorized "email or password is incorrect"

abbrev pub Opened : Type 0
Opened = ApiResult AuthenticatedSession × Server

module _ (env : AuthEnv) where
  -- `find_owner_by_email`
  abbrev pub find_owner_by_email : String → AccountTables → Option OwnerRecord
  find_owner_by_email email t =
      find (λ o. str_eq (env.to_lowercase o.email) (env.to_lowercase email)) t.owners

  -- `Option::or`
  abbrev pub first_of : Option String → Option String → Option String
  first_of none tag = tag
  first_of (some name) tag = some name

  -- `device_name`
  unfoldable pub device_name : Option String → Option String → String
  device_name name tag = elim (first_of name tag) [
    | none ↦ "Unknown device"
    | some value ↦
        let kept = env.take_chars 80 (env.trim value) in
        if str_eq kept "" then "Unknown device" else kept
  ]

  -- `open_session`, and `actor_for` of the session that it opened.
  unfoldable pub open_actor : Draw → ℕ → ℕ → Option ℕ → String → Server → ApiResult Actor × Server
  unfolding open_session resolve database
  open_actor draw now owner staff device srv =
      let (opened, t) = open_session draw.session owner staff device now srv.tables in
      elim opened [
        | err e ↦ (err e, record srv { tables = t })
        | ok session ↦
            let (actor, m) = resolve (database t) session now now srv.resolved in
            let srv' : Server = record { tables = t; resolved = m } in
            elim actor [
              | none ↦ (err (internal "a new session did not resolve"), srv')
              | some a ↦ (ok a, srv')
            ]
      ]

  -- `open_owner_session`
  unfoldable pub open_owner_session : Draw → ℕ → OwnerRecord → String → Server → Opened
  unfolding open_actor issue
  open_owner_session draw now owner device srv =
      let (actor, srv') = open_actor draw now owner.id none device srv in
      elim actor [ err e ↦ (err e, srv') | ok a ↦ issue env draw now a srv' ]

  -- `login`, with the counters that Redis keeps.
  unfoldable pub login :
      {S : Type 0} → RateLimiter S → Draw → ℕ → LoginRequest → Server → S → Opened × S
  unfolding check reset purge_dead_sessions device_name open_owner_session
  login limiter draw now request srv s =
      let email = env.to_lowercase (env.trim request.email) in
      let bucket = "login:" ++ email in
      let (verdict, s') = check limiter bucket s in
      elim verdict [
        | exceeded ↦ ((err too_many_requests, srv), s')
        | allowed ↦ elim (find_owner_by_email email srv.tables) [
          | none ↦ ((err invalid_credentials, srv), s')
          | some owner ↦
              if not (env.verify_password request.password owner.password_hash)
              then ((err invalid_credentials, srv), s')
              else (
                open_owner_session draw now owner
                    (device_name request.device_name request.device_tag)
                    (record srv { tables = purge_dead_sessions owner.id now srv.tables }),
                reset limiter bucket s',
              )
        ]
      ]

  -- The check before a code is used up.
  abbrev pub check_code : ℕ → Bool → ℕ → ℕ → AccountTables → ApiResult (Unit {0})
  check_code grace enforced hash now t = elim (owner_of_code hash now t) [
    | none ↦ ok tt
    | some owner ↦ check_staff grace now enforced env.show (t.subscriptions owner)
  ]

  -- `join`
  unfoldable pub join :
      ℕ
      → Bool
      → Draw
      → ℕ
      → JoinRequest
      → Server
      → (ApiResult AuthenticatedSession × Server) × List Effect
  unfolding owner_of_code check_staff redeem fingerprint device_name open_actor issue
  join grace enforced draw now request srv =
      let hash = fingerprint env request.code in
      elim (check_code grace enforced hash now srv.tables) [
        | err e ↦ ((err e, srv), [])
        | ok _ ↦
            let (redeemed, t) = redeem hash now srv.tables in
            let srv' = record srv { tables = t } in
            elim redeemed [
              | err e ↦ ((err e, srv'), [])
              | ok none ↦ ((err (unauthorized "this code is not valid or has expired"), srv'), [])
              | ok (some invite) ↦
                  let device = device_name request.device_name request.device_tag in
                  let (actor, opened) =
                    open_actor draw now invite.owner_id (some invite.staff.id) device srv' in
                  elim actor [
                    | err e ↦ ((err e, opened), [])
                    | ok a ↦ (
                      issue env draw now a opened,
                      audit Request.AuditAction.staff_joined invite.staff.id ∷ [],
                    )
                  ]
            ]
      ]

  -- `create_owner_with_store`, with the ids that the database draws. The e-mail is unique.
  unfoldable pub create_owner_with_store :
      ℕ
      → ℕ
      → String
      → String
      → String
      → String
      → String
      → ℕ
      → ℕ
      → AccountTables
      → ApiResult OwnerRecord × AccountTables
  create_owner_with_store id store email hash name store_name business_type trial_ends now t =
      let lowered = env.to_lowercase email in
      let owner : OwnerRecord = record {
        id = id;
        email = lowered;
        password_hash = hash;
        full_name = name;
      } in
      let opened : StoreRecord = record {
        id = store;
        owner_id = id;
        name = store_name;
        business_type = business_type;
        currency_code = "PHP";
        share_benchmarks = true;
        created_at = now;
      } in
      let taken =
        any (λ o. (o.id == id) || str_eq (env.to_lowercase o.email) (env.to_lowercase lowered))
          t.owners
        || any (λ s. s.id == store) t.stores in
      if taken then (err (internal "the account violates a key"), t) else (
        ok owner,
        record t {
          owners = owner ∷ t.owners;
          stores = opened ∷ t.stores;
          subscriptions = λ o.
              if o == id
              then some
                  (record { plan = "pro"; trial_ends_at = some trial_ends; paid_through = none })
              else t.subscriptions o;
        },
      )

  -- `register`, with the ids of the new owner and the new store.
  unfoldable pub register :
      ℕ
      → ℕ
      → ℕ
      → Draw
      → ℕ
      → RegisterRequest
      → Server
      → List ConsentRecord
      → Opened × List ConsentRecord
  unfolding check_registration_consent create_owner_with_store record_registration_consent
      device_name open_owner_session
  register trial id store draw now request srv consents =
      let email = env.to_lowercase (env.trim request.email) in
      elim (check_registration_consent request.accepted_privacy_version
        request.accepted_terms_version) [
          | err e ↦ ((err e, srv), consents)
          | ok _ ↦
              if is_some (find_owner_by_email email srv.tables)
              then ((err (conflict "an account already uses this email address"), srv), consents)
              else elim (env.hash_password request.password) [
                | err e ↦ ((err e, srv), consents)
                | ok password_hash ↦
                    let (created, t) =
                      create_owner_with_store id store email password_hash
                        (env.trim request.full_name) (env.trim request.store_name)
                        (unwrap_or request.business_type "sari_sari") (now + trial) now
                        srv.tables in
                    let srv' = record srv { tables = t } in
                    elim created [
                      | err e ↦ ((err e, srv'), consents)
                      | ok owner ↦ (
                        open_owner_session draw now owner
                            (device_name request.device_name request.device_tag) srv',
                        record_registration_consent owner.id now consents,
                      )
                    ]
              ]
        ]
