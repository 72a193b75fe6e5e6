-- ===== src/Access/Sessions.antt =====
-- backend/src/features/access/session_directory.rs: who a session id stands for, remembered for
-- twenty seconds. A time is a number of nanoseconds. The map is a list with the last write first;
-- a key stands in it once. The database is a function from session ids to joined rows.
pub mod Staleness
use kitaza.Common.{
  ℕ, String, ◌+◌, ◌-◌, ◌*◌, Bool, true, false, Option, none, some, List, [], ◌∷◌, length, ltb, leb,
  ◌==◌, not, unwrap_or, if◌then◌else◌,
}
use kitaza.Billing.Plan.{SubscriptionRecord, nanos_per_second}
use kitaza.Access.Permission.{Permissions}
use kitaza.Access.Actor.{Actor, StaffGrant}

abbrev pub trust_window : ℕ
trust_window = 20 * nanos_per_second

abbrev pub max_remembered : ℕ
max_remembered = 10_000

pub record SessionRow : Type 0 where
  pub owner_id : ℕ
  pub owner_name : String
  pub device_name : String
  pub session_live : Bool
  pub staff_id : Option ℕ
  pub staff_name : Option String
  pub staff_store_id : Option ℕ
  pub staff_live : Option Bool
  pub can_manage_products : Option Bool
  pub can_record_expenses : Option Bool
  pub can_view_profit : Option Bool
  pub can_delete_records : Option Bool
  pub plan : Option String
  pub trial_ends_at : Option ℕ
  pub paid_through : Option ℕ

-- The grant in `into_actor`: the outer `none` is its early return.
abbrev pub grant_of : SessionRow → Option (Option StaffGrant)
grant_of row = elim row.staff_id [
  | none ↦ some none
  | some staff ↦
      if unwrap_or row.staff_live false
      then elim row.staff_store_id [
        | none ↦ none
        | some store ↦ some (
            some (record {
              staff_id = staff;
              store_id = store;
              permissions = record {
                manage_products = unwrap_or row.can_manage_products false;
                record_expenses = unwrap_or row.can_record_expenses false;
                view_profit = unwrap_or row.can_view_profit false;
                delete_records = unwrap_or row.can_delete_records false;
              };
            }))
      ]
      else none
]

unfoldable pub into_actor : ℕ → SessionRow → Option Actor
into_actor session row = if not row.session_live then none else elim (grant_of row) [
  | none ↦ none
  | some grant ↦ some (record {
    owner_id = row.owner_id;
    session_id = session;
    name = unwrap_or row.staff_name row.owner_name;
    device_name = row.device_name;
    staff = grant;
    subscription = elim row.plan [
      | none ↦ none
      | some p ↦
          some (record {
            plan = p;
            trial_ends_at = row.trial_ends_at;
            paid_through = row.paid_through;
          })
    ];
  })
]

abbrev pub Database : Type 0
Database = ℕ → Option SessionRow

-- `row.and_then(|row| into_actor(session_id, row))`
unfoldable pub actor_in : Database → ℕ → Option Actor
unfolding into_actor
actor_in db session = elim (db session) [ none ↦ none | some row ↦ into_actor session row ]

-- `Remembered`: when each session was looked up, and who it turned out to be.
abbrev pub Remembered : Type 0
Remembered = List (ℕ × (ℕ × Option Actor))

abbrev pub entry : Remembered → ℕ → Option (ℕ × Option Actor)
entry [] session = none
entry ((s, e) ∷ m) session = if s == session then some e else entry m session

-- `HashMap::remove`
abbrev pub erase : ℕ → Remembered → Remembered
erase session [] = []
erase session ((s, e) ∷ m) =
    let rest = erase session m in if s == session then rest else (s, e) ∷ rest

-- `HashMap::insert`
abbrev pub put : ℕ → ℕ × Option Actor → Remembered → Remembered
put session e m = (session, e) ∷ erase session m

-- `remembered`: the answer for a session, if it was looked up less than a trust window ago.
unfoldable pub remembered : Remembered → ℕ → ℕ → Option (Option Actor)
remembered m session now = elim (entry m session) [
  | none ↦ none
  | some (at, actor) ↦ if ltb (now - at) trust_window then some actor else none
]

-- The writing half of `resolve`, run when the answer of the database has come back.
unfoldable pub remember : ℕ → ℕ → Option Actor → Remembered → Remembered
remember session now actor m =
    let kept : Remembered = if leb max_remembered (length m) then [] else m in
    put session (now, actor) kept

-- `resolve`, with the time of the call, and the time at which the database's answer is written.
unfoldable pub resolve : Database → ℕ → ℕ → ℕ → Remembered → Option Actor × Remembered
unfolding remembered actor_in remember
resolve db session asked answered m = elim (remembered m session asked) [
  | some actor ↦ (actor, m)
  | none ↦ (actor_in db session, remember session answered (actor_in db session) m)
]

-- `forget_all`
abbrev pub forget_all : Remembered → Remembered
forget_all m = []
