-- ===== src/Auth/Tables.antt =====
-- The rows behind signing in (`OwnerRecord` and `RefreshTokenRecord` of
-- backend/src/features/authentication/auth_repository.rs, `StaffRecord` of
-- backend/src/features/staff/staff_repository.rs): owners, their devices' sessions, refresh tokens,
-- staff and join codes. The hash of a token or of a code is a number, its hexadecimal digits read
-- as one.
use kitaza.Common.{ℕ, String, Bool, Option, some, List, if◌then◌else◌, ◌==◌}
use kitaza.Billing.Plan.{SubscriptionRecord}
use kitaza.Access.Permission.{Permissions}

pub record OwnerRecord : Type 0 where
  pub id : ℕ
  pub email : String
  pub password_hash : String
  pub full_name : String

pub record StoreRecord : Type 0 where
  pub id : ℕ
  pub owner_id : ℕ
  pub name : String
  pub business_type : String
  pub currency_code : String
  pub share_benchmarks : Bool
  pub created_at : ℕ

-- A row of `device_sessions`, without its id.
pub record DeviceSession : Type 0 where
  pub owner_id : ℕ
  pub staff_id : Option ℕ
  pub device_name : String
  pub created_at : ℕ
  pub last_seen_at : ℕ
  pub revoked_at : Option ℕ

-- A row of `refresh_tokens`.
pub record RefreshToken : Type 0 where
  pub owner_id : ℕ
  pub session_id : ℕ
  pub token_hash : ℕ
  pub expires_at : ℕ
  pub revoked_at : Option ℕ
  pub rotated_at : Option ℕ

-- What `find_refresh_token` reads of a token, its session and its staff member.
pub record RefreshTokenRecord : Type 0 where
  pub owner_id : ℕ
  pub session_id : ℕ
  pub staff_id : Option ℕ
  pub expires_at : ℕ
  pub revoked_at : Option ℕ
  pub rotated_at : Option ℕ
  pub session_live : Bool
  pub staff_live : Bool

-- A row of `staff_members`, without its id.
pub record StaffMember : Type 0 where
  pub store_id : ℕ
  pub display_name : String
  pub permissions : Permissions
  pub created_at : ℕ
  pub removed_at : Option ℕ

pub record StaffRecord : Type 0 where
  pub id : ℕ
  pub store_id : ℕ
  pub display_name : String
  pub permissions : Permissions
  pub created_at : ℕ

-- A row of `staff_invites`. Its id is not needed: `code_hash` is unique.
pub record Invite : Type 0 where
  pub staff_id : ℕ
  pub code_hash : ℕ
  pub expires_at : ℕ
  pub redeemed_at : Option ℕ

pub record AccountTables : Type 0 where
  pub owners : List OwnerRecord
  pub stores : List StoreRecord
  pub subscriptions : ℕ → Option SubscriptionRecord
  pub sessions : ℕ → Option DeviceSession
  pub tokens : List RefreshToken
  pub staff_members : ℕ → Option StaffMember
  pub invites : List Invite

-- The write of one row by its primary key.
abbrev pub set {ℓ} : {A : Type ℓ} → ℕ → A → (ℕ → Option A) → ℕ → Option A
set key row rows = λ id. if id == key then some row else rows id
