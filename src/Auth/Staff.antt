-- ===== src/Auth/Staff.antt =====
-- The statements on staff and join codes: `StaffRepository` of
-- backend/src/features/staff/staff_repository.rs. A method that runs in one transaction is one
-- function. A store's owner is read from `stores`.
use kitaza.Common.{
  ℕ, String, Bool, false, ◌&&◌, not, Option, none, some, List, ◌∷◌, select, find, any, update_where,
  ltb, ◌==◌, if◌then◌else◌, is_some,
}
use kitaza.Common.Failure.{ApiResult, ok, err, internal}
use kitaza.Access.Permission.{Permissions}
use kitaza.Access.Actor.{eqb_id}
use kitaza.Auth.Tables.{
  DeviceSession, StaffMember, StaffRecord, Invite, AccountTables, set, StoreRecord,
}
use kitaza.Auth.Devices.{revoke_tokens, end_session}

abbrev pub record_of : ℕ → StaffMember → StaffRecord
record_of id member = record {
  id = id;
  store_id = member.store_id;
  display_name = member.display_name;
  permissions = member.permissions;
  created_at = member.created_at;
}

-- `find_store`
abbrev pub find_store : ℕ → AccountTables → Option StoreRecord
find_store store t = find (λ s. s.id == store) t.stores

-- `create`, with the id that the database draws.
unfoldable pub create :
    ℕ → ℕ → String → Permissions → ℕ → AccountTables → ApiResult StaffRecord × AccountTables
create id store name permissions now t =
    let member : StaffMember = record {
      store_id = store;
      display_name = name;
      permissions = permissions;
      created_at = now;
      removed_at = none;
    } in
    if not (is_some (t.staff_members id)) && is_some (find_store store t)
    then (ok (record_of id member), record t { staff_members = set id member t.staff_members })
    else (err (internal "the staff member violates a key"), t)

abbrev pub works_at : ℕ → StaffMember → Bool
works_at store member = (member.store_id == store) && not (is_some member.removed_at)

-- `find`
unfoldable pub find_member : ℕ → ℕ → AccountTables → Option StaffRecord
find_member store staff t = elim (t.staff_members staff) [
  | none ↦ none
  | some member ↦ if works_at store member then some (record_of staff member) else none
]

-- `update`
unfoldable pub update :
    ℕ → ℕ → String → Permissions → AccountTables → Option StaffRecord × AccountTables
update store staff name permissions t = elim (t.staff_members staff) [
  | none ↦ (none, t)
  | some member ↦
      let changed : StaffMember = record member {
        display_name = name;
        permissions = permissions;
      } in
      if works_at store member
      then (
        some (record_of staff changed),
        record t { staff_members = set staff changed t.staff_members },
      )
      else (none, t)
]

abbrev pub is_unused_of : ℕ → Invite → Bool
is_unused_of staff i = (i.staff_id == staff) && not (is_some i.redeemed_at)

-- `DELETE FROM staff_invites WHERE staff_id = $1 AND redeemed_at IS NULL`
abbrev pub delete_unused : ℕ → List Invite → List Invite
delete_unused staff = select (λ i. not (is_unused_of staff i))

abbrev pub is_device_of : ℕ → Option DeviceSession → Bool
is_device_of staff none = false
is_device_of staff (some row) = eqb_id row.staff_id (some staff)

abbrev pub end_live : ℕ → DeviceSession → DeviceSession
end_live now row = if is_some row.revoked_at then row else end_session row now

-- What removing a staff member who works at the store does to the tables.
abbrev pub removed : ℕ → StaffMember → ℕ → AccountTables → AccountTables
removed staff member now t = record t {
  staff_members = set staff (record member { removed_at = some now }) t.staff_members;
  sessions = λ id. elim (t.sessions id) [
    | none ↦ none
    | some row ↦ if is_device_of staff (some row) then some (end_live now row) else some row
  ];
  tokens = revoke_tokens (λ k. is_device_of staff (t.sessions k.session_id)) now t.tokens;
  invites = delete_unused staff t.invites;
}

-- `remove`
unfoldable pub remove : ℕ → ℕ → ℕ → AccountTables → Option StaffRecord × AccountTables
remove store staff now t = elim (t.staff_members staff) [
  | none ↦ (none, t)
  | some member ↦
      if works_at store member
      then (some (record_of staff member), removed staff member now t)
      else (none, t)
]

-- `replace_invite`: the hash is unique among all codes, used ones included.
unfoldable pub replace_invite : ℕ → ℕ → ℕ → AccountTables → ApiResult (Unit {0}) × AccountTables
replace_invite staff hash expires t =
    let kept = delete_unused staff t.invites in
    if is_some (t.staff_members staff) && not (any (λ i. i.code_hash == hash) kept)
    then (
      ok tt,
      record t {
        invites =
            record { staff_id = staff; code_hash = hash; expires_at = expires; redeemed_at = none }
            ∷ kept;
      },
    )
    else (err (internal "the code violates a key"), t)

-- `i.code_hash = $1 AND i.redeemed_at IS NULL AND i.expires_at > now()`
abbrev pub is_live_code : ℕ → ℕ → Invite → Bool
is_live_code hash now i =
    (i.code_hash == hash) && not (is_some i.redeemed_at) && ltb now i.expires_at

-- `owner_of_code`
unfoldable pub owner_of_code : ℕ → ℕ → AccountTables → Option ℕ
owner_of_code hash now t = elim (find (is_live_code hash now) t.invites) [
  | none ↦ none
  | some i ↦ elim (t.staff_members i.staff_id) [
    | none ↦ none
    | some member ↦ elim (find_store member.store_id t) [
      | none ↦ none
      | some store ↦ some store.owner_id
    ]
  ]
]

pub record RedeemedInvite : Type 0 where
  pub staff : StaffRecord
  pub owner_id : ℕ

abbrev pub use_up : ℕ → ℕ → List Invite → List Invite
use_up hash now = update_where (λ i. i.code_hash == hash) (λ i. record i { redeemed_at = some now })

-- `redeem`
unfoldable pub redeem : ℕ → ℕ → AccountTables → ApiResult (Option RedeemedInvite) × AccountTables
redeem hash now t = elim (find (is_live_code hash now) t.invites) [
  | none ↦ (ok none, t)
  | some i ↦ elim (t.staff_members i.staff_id) [
    | none ↦ (ok none, t)
    | some member ↦
        if is_some member.removed_at then (ok none, t) else elim (find_store member.store_id t) [
          | none ↦ (err (internal "no rows returned"), t)
          | some store ↦ (
            ok (some (record { staff = record_of i.staff_id member; owner_id = store.owner_id })),
            record t { invites = use_up hash now t.invites },
          )
        ]
  ]
]
