-- ===== src/Auth/Staffing.antt =====
-- `StaffService` of backend/src/features/staff/staff_service.rs, and `revoke_device` of
-- backend/src/features/devices/device_handlers.rs. `grace` and `enforced` are the settings of
-- billing. A call draws the id of a new staff member, and the letters of a new code.
use kitaza.Common.{ℕ, String, ◌+◌, ◌*◌, Bool, Option, none, some, List, [], ◌∷◌}
use kitaza.Common.Failure.{ApiResult, ok, err, not_found}
use kitaza.Billing.Plan.{nanos_per_second}
use kitaza.Billing.Gate.{check_staff}
use kitaza.Access.Permission.{Permission, from_list, to_list}
use kitaza.Access.Actor.{Actor}
use kitaza.Access.Sessions.{forget_all}
use kitaza.Services.Request.{Effect, audit, publish, AuditAction}
use kitaza.Services.Request
use kitaza.Auth.Tables.{AccountTables, StaffRecord}
use kitaza.Auth.Devices.{revoke}
use kitaza.Auth.Staff.{create, find_member, update, remove, replace_invite}
use kitaza.Auth.Service.{AuthEnv, Server}
use kitaza.Auth.JoinCode.{Text, generate, normalise}

-- `INVITE_LIFETIME`
abbrev pub invite_lifetime : ℕ
invite_lifetime = 24 * 3_600 * nanos_per_second

pub record SaveStaffRequest : Type 0 where
  pub display_name : String
  pub permissions : List Permission

pub record StaffView : Type 0 where
  pub id : ℕ
  pub display_name : String
  pub permissions : List Permission
  pub signed_in_devices : ℕ
  pub invite_expires_at : Option ℕ
  pub created_at : ℕ

-- `StaffView::from_record`
unfoldable pub from_record : StaffRecord → StaffView
unfolding to_list
from_record staff = record {
  id = staff.id;
  display_name = staff.display_name;
  permissions = to_list staff.permissions;
  signed_in_devices = 0;
  invite_expires_at = none;
  created_at = staff.created_at;
}

pub record InviteView : Type 0 where
  pub code : Text
  pub expires_at : ℕ

pub record AddedStaff : Type 0 where
  pub staff : StaffView
  pub invite : InviteView

abbrev pub Reply {ℓ} : Type ℓ → Type ℓ
Reply A = ApiResult A × Server × List Effect

-- `access_changed`, with the log's entry before it.
abbrev pub access_changed :
    AuditAction → StaffRecord → AccountTables → Server → Server × List Effect
access_changed action staff t srv = (
  record { tables = t; resolved = forget_all srv.resolved },
  audit action staff.id ∷ publish Request.RealtimeTopic.access_changed none ∷ [],
)

-- `join_code::fingerprint`
unfoldable pub fingerprint : AuthEnv → Text → ℕ
unfolding normalise
fingerprint env typed = env.sha256_text (normalise typed)

module _ (env : AuthEnv) where
  -- `new_invite`
  unfoldable pub new_invite : List ℕ → ℕ → ℕ → AccountTables → ApiResult InviteView × AccountTables
  unfolding generate fingerprint replace_invite
  new_invite letters staff now t =
      let code = generate letters in
      let expires = now + invite_lifetime in
      let (stored, t') = replace_invite staff (fingerprint env code) expires t in
      elim stored [
        | err e ↦ (err e, t')
        | ok _ ↦ (ok (record { code = code; expires_at = expires }), t')
      ]

  -- `update`
  unfoldable pub update_staff : ℕ → ℕ → SaveStaffRequest → Server → Reply StaffView
  unfolding update from_list from_record
  update_staff store staff request srv =
      let (updated, t) =
        update store staff (env.trim request.display_name) (from_list request.permissions)
          srv.tables in
      elim updated [
        | none ↦ (err (not_found "staff member"), record srv { tables = t }, [])
        | some row ↦
            let (srv', told) = access_changed Request.AuditAction.staff_changed row t srv in
            (ok (from_record row), srv', told)
      ]

module _ (env : AuthEnv) (grace : ℕ) (enforced : Bool) where
  -- `add`
  unfoldable pub add : ℕ → List ℕ → ℕ → Actor → ℕ → SaveStaffRequest → Server → Reply AddedStaff
  unfolding check_staff from_list create new_invite from_record
  add id letters store actor now request srv =
      elim (check_staff grace now enforced env.show actor.subscription) [
        | err e ↦ (err e, srv, [])
        | ok _ ↦
            let (created, t) =
              create id store (env.trim request.display_name) (from_list request.permissions) now
                srv.tables in
            elim created [
              | err e ↦ (err e, record srv { tables = t }, [])
              | ok staff ↦
                  let (invited, t') = new_invite env letters staff.id now t in
                  elim invited [
                    | err e ↦ (err e, record srv { tables = t' }, [])
                    | ok invite ↦ (
                      ok (record { staff = from_record staff; invite = invite }),
                      record srv { tables = t' },
                      audit Request.AuditAction.staff_added staff.id ∷ [],
                    )
                  ]
            ]
      ]

  -- `reinvite`
  unfoldable pub reinvite : List ℕ → ℕ → Actor → ℕ → ℕ → Server → Reply InviteView
  unfolding check_staff find_member new_invite
  reinvite letters store actor now staff srv =
      elim (check_staff grace now enforced env.show actor.subscription) [
        | err e ↦ (err e, srv, [])
        | ok _ ↦ elim (find_member store staff srv.tables) [
          | none ↦ (err (not_found "staff member"), srv, [])
          | some found ↦
              let (invited, t) = new_invite env letters found.id now srv.tables in
              elim invited [
                | err e ↦ (err e, record srv { tables = t }, [])
                | ok invite ↦ (
                  ok invite,
                  record srv { tables = t },
                  audit Request.AuditAction.staff_invited found.id ∷ [],
                )
              ]
        ]
      ]

-- `remove`
unfoldable pub remove_staff : ℕ → ℕ → ℕ → Server → Reply (Unit {0})
unfolding remove
remove_staff store staff now srv =
    let (gone, t) = remove store staff now srv.tables in
    elim gone [
      | none ↦ (err (not_found "staff member"), record srv { tables = t }, [])
      | some row ↦
          let (srv', told) = access_changed Request.AuditAction.staff_removed row t srv in
          (ok tt, srv', told)
    ]

-- `revoke_device`
unfoldable pub revoke_device : Actor → ℕ → ℕ → Server → Reply (Unit {0})
unfolding revoke
revoke_device owner session now srv =
    let (revoked, t) = revoke owner.owner_id session now srv.tables in
    elim revoked [
      | none ↦ (err (not_found "device"), record srv { tables = t }, [])
      | some _ ↦ (
        ok tt,
        record { tables = t; resolved = forget_all srv.resolved },
        audit Request.AuditAction.device_signed_out session ∷ [],
      )
    ]
