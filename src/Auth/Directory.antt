-- ===== src/Auth/Directory.antt =====
-- The row that `SessionDirectory::resolve` of backend/src/features/access/session_directory.rs
-- reads: a device's session joined with its owner, and with the staff member and the subscription
-- where there are such rows.
use kitaza.Common.{ℕ, String, true, Option, none, some, not, is_some}
use kitaza.Access.Sessions.{SessionRow, Database}
use kitaza.Auth.Tables.{OwnerRecord, DeviceSession, StaffMember, AccountTables}
use kitaza.Auth.Devices.{find_owner_by_id, member_of}
use kitaza.Billing.Plan.{SubscriptionRecord}

abbrev of_member {ℓ} : {A : Type ℓ} → (StaffMember → A) → Option StaffMember → Option A
of_member f none = none
of_member f (some member) = some (f member)

abbrev plan_of : Option SubscriptionRecord → Option String
plan_of none = none
plan_of (some s) = some s.plan

abbrev trial_of : Option SubscriptionRecord → Option ℕ
trial_of none = none
trial_of (some s) = s.trial_ends_at

abbrev paid_of : Option SubscriptionRecord → Option ℕ
paid_of none = none
paid_of (some s) = s.paid_through

abbrev session_row : OwnerRecord → DeviceSession → AccountTables → SessionRow
session_row owner row t =
    let member = member_of row t in
    let subscription = t.subscriptions row.owner_id in
    record {
      owner_id = row.owner_id;
      owner_name = owner.full_name;
      device_name = row.device_name;
      session_live = not (is_some row.revoked_at);
      staff_id = elim member [ none ↦ none | some _ ↦ row.staff_id ];
      staff_name = of_member (λ m. m.display_name) member;
      staff_store_id = of_member (λ m. m.store_id) member;
      staff_live = elim member [ none ↦ some true | some m ↦ some (not (is_some m.removed_at)) ];
      can_manage_products = of_member (λ m. m.permissions.manage_products) member;
      can_record_expenses = of_member (λ m. m.permissions.record_expenses) member;
      can_view_profit = of_member (λ m. m.permissions.view_profit) member;
      can_delete_records = of_member (λ m. m.permissions.delete_records) member;
      plan = plan_of subscription;
      trial_ends_at = trial_of subscription;
      paid_through = paid_of subscription;
    }

-- The query of `resolve`.
unfoldable pub database : AccountTables → Database
database t session = elim (t.sessions session) [
  | none ↦ none
  | some row ↦ elim (find_owner_by_id row.owner_id t) [
    | none ↦ none
    | some owner ↦ some (session_row owner row t)
  ]
]
