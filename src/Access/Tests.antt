-- ===== src/Access/Tests.antt =====
-- Concrete runs of the access code.
use kitaza.Common.{ℕ, ◌+◌, ◌≤◌, ◌<◌, ◌≡◌, true, false, none, some, [], arith, ltb, if◌then◌else◌}
use kitaza.Access.Actor.{Actor, StaffGrant}
use kitaza.Access.Sessions.{Database, SessionRow, actor_in, resolve, forget_all, trust_window}
use kitaza.Access.Sessions.Staleness.{IsTruthful, forget_all-IsTruthful, resolve_recent}

abbrev owner : Actor
owner = record {
  owner_id = 1;
  session_id = 10;
  name = "Aling Nena";
  device_name = "phone";
  staff = none;
  subscription = none;
}

abbrev grant : StaffGrant
grant = record {
  staff_id = 5;
  store_id = 2;
  permissions = record {
    manage_products = true;
    record_expenses = false;
    view_profit = false;
    delete_records = false;
  };
}

abbrev helper : Actor
helper = record owner { staff = some grant }

abbrev row : SessionRow
row = record {
  owner_id = 1;
  owner_name = "Aling Nena";
  device_name = "phone";
  session_live = true;
  staff_id = none;
  staff_name = none;
  staff_store_id = none;
  staff_live = none;
  can_manage_products = none;
  can_record_expenses = none;
  can_view_profit = none;
  can_delete_records = none;
  plan = none;
  trial_ends_at = none;
  paid_through = none;
}

-- The session is revoked at time 100.
abbrev history : ℕ → Database
history t session = if ltb t 100 then some row else some (record row { session_live = false })

resolve_recent_example :
    let (actor, m') = resolve (history 50) 10 50 53 (forget_all []) in
    IsTruthful history 5 m' 53
    × ((t : ℕ) × (t ≤ 50) × (50 < t + 5 + trust_window) × (actor ≡ actor_in (history t) 10))
resolve_recent_example =
    resolve_recent history 5 10 50 53 (forget_all []) (omega arith) (omega arith)
      (forget_all-IsTruthful history 5 [] 50)
