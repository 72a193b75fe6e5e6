-- ===== src/Auth/Devices.antt =====
-- The statements on device sessions and refresh tokens: `AuthRepository` of
-- backend/src/features/authentication/auth_repository.rs and `DeviceRepository::revoke` of
-- backend/src/features/devices/device_repository.rs. A time counts nanoseconds, and `now` is the
-- database's.
use kitaza.Common.{
  ℕ, String, ◌+◌, ◌*◌, Bool, true, false, ◌&&◌, ◌||◌, not, Option, none, some, List, ◌∷◌, select,
  find, any, update_where, ltb, ◌==◌, if◌then◌else◌, is_some,
}
use kitaza.Common.Failure.{ApiResult, ok, err, internal}
use kitaza.Billing.Plan.{nanos_per_second}
use kitaza.Auth.Tables.{
  OwnerRecord, DeviceSession, RefreshToken, RefreshTokenRecord, StaffMember, AccountTables, set,
}

abbrev pub nanos_per_day : ℕ
nanos_per_day = 86_400 * nanos_per_second

-- `find_owner_by_id`
abbrev pub find_owner_by_id : ℕ → AccountTables → Option OwnerRecord
find_owner_by_id owner t = find (λ o. o.id == owner) t.owners

-- The keys that a new session's row must have: its own is free, and its owner and its staff member
-- are there.
abbrev pub admits_session : ℕ → ℕ → Option ℕ → AccountTables → Bool
admits_session session owner staff t =
    not (is_some (t.sessions session))
    && is_some (find_owner_by_id owner t)
    && elim staff [ none ↦ true | some id ↦ is_some (t.staff_members id) ]

abbrev pub opened : ℕ → Option ℕ → String → ℕ → DeviceSession
opened owner staff device now = record {
  owner_id = owner;
  staff_id = staff;
  device_name = device;
  created_at = now;
  last_seen_at = now;
  revoked_at = none;
}

-- `open_session`, with the id that the database draws.
unfoldable pub open_session :
    ℕ → ℕ → Option ℕ → String → ℕ → AccountTables → ApiResult ℕ × AccountTables
open_session session owner staff device now t =
    if admits_session session owner staff t
    then (
      ok session,
      record t { sessions = set session (opened owner staff device now) t.sessions },
    )
    else (err (internal "the session violates a key"), t)

-- `touch_session`
unfoldable pub touch_session : ℕ → ℕ → AccountTables → AccountTables
touch_session session now t = elim (t.sessions session) [
  | none ↦ t
  | some row ↦ record t { sessions = set session (record row { last_seen_at = now }) t.sessions }
]

abbrev pub token_of : ℕ → AccountTables → Option RefreshToken
token_of hash t = find (λ k. k.token_hash == hash) t.tokens

-- `store_refresh_token`: the hash is unique, and the session must be there.
unfoldable pub store_refresh_token :
    ℕ → ℕ → ℕ → ℕ → AccountTables → ApiResult (Unit {0}) × AccountTables
store_refresh_token owner session hash expires t =
    if is_some (t.sessions session) && not (any (λ k. k.token_hash == hash) t.tokens)
    then (
      ok tt,
      record t {
        tokens =
            record {
              owner_id = owner;
              session_id = session;
              token_hash = hash;
              expires_at = expires;
              revoked_at = none;
              rotated_at = none;
            }
            ∷ t.tokens;
      },
    )
    else (err (internal "the token violates a key"), t)

-- `COALESCE(st.removed_at IS NULL, TRUE)` of the staff member that a session names, if it does.
abbrev pub staff_live : Option ℕ → AccountTables → Bool
staff_live none t = true
staff_live (some staff) t = elim (t.staff_members staff) [
  | none ↦ true
  | some member ↦ not (is_some member.removed_at)
]

-- `find_refresh_token`
unfoldable pub find_refresh_token : ℕ → AccountTables → Option RefreshTokenRecord
find_refresh_token hash t = elim (token_of hash t) [
  | none ↦ none
  | some k ↦ elim (t.sessions k.session_id) [
    | none ↦ none
    | some s ↦ some (record {
      owner_id = k.owner_id;
      session_id = k.session_id;
      staff_id = s.staff_id;
      expires_at = k.expires_at;
      revoked_at = k.revoked_at;
      rotated_at = k.rotated_at;
      session_live = not (is_some s.revoked_at);
      staff_live = staff_live s.staff_id t;
    })
  ]
]

abbrev pub rotate : ℕ → RefreshToken → RefreshToken
rotate now k = record k { rotated_at = some now }

-- `mark_rotated`
unfoldable pub mark_rotated : ℕ → ℕ → AccountTables → AccountTables
mark_rotated hash now t = record t {
  tokens =
      update_where (λ k. (k.token_hash == hash) && not (is_some k.rotated_at)) (rotate now)
        t.tokens;
}

-- `UPDATE refresh_tokens SET revoked_at = now() WHERE … AND revoked_at IS NULL`
abbrev pub revoke_tokens : (RefreshToken → Bool) → ℕ → List RefreshToken → List RefreshToken
revoke_tokens p now =
    update_where (λ k. p k && not (is_some k.revoked_at)) (λ k. record k { revoked_at = some now })

abbrev pub end_session : DeviceSession → ℕ → DeviceSession
end_session row now = record row { revoked_at = some now }

-- What ending a session that is live does to the tables.
abbrev pub ended : ℕ → DeviceSession → ℕ → AccountTables → AccountTables
ended session row now t = record t {
  sessions = set session (end_session row now) t.sessions;
  tokens = revoke_tokens (λ k. k.session_id == session) now t.tokens;
}

-- `end_session_for_token`
unfoldable pub end_session_for_token : ℕ → ℕ → AccountTables → AccountTables
end_session_for_token hash now t = elim (token_of hash t) [
  | none ↦ t
  | some k ↦ elim (t.sessions k.session_id) [
    | none ↦ t
    | some row ↦ if is_some row.revoked_at then t else ended k.session_id row now t
  ]
]

-- `at < now() - INTERVAL '7 days'`, false where there is no time.
abbrev pub over_a_week_ago : Option ℕ → ℕ → Bool
over_a_week_ago none now = false
over_a_week_ago (some at) now = ltb (at + 7 * nanos_per_day) now

abbrev pub is_spent : ℕ → RefreshToken → Bool
is_spent now k =
    ltb k.expires_at now || over_a_week_ago k.revoked_at now || over_a_week_ago k.rotated_at now

abbrev pub is_abandoned : ℕ → ℕ → List RefreshToken → ℕ → DeviceSession → Bool
is_abandoned owner now tokens id row =
    (row.owner_id == owner)
    && ltb (row.created_at + nanos_per_day) now
    && not (any (λ k. k.session_id == id) tokens)

-- The two statements of `purge_dead_sessions`, which no transaction holds together.
unfoldable pub purge_tokens : ℕ → ℕ → AccountTables → AccountTables
purge_tokens owner now t = record t {
  tokens = select (λ k. not ((k.owner_id == owner) && is_spent now k)) t.tokens;
}

unfoldable pub purge_sessions : ℕ → ℕ → AccountTables → AccountTables
purge_sessions owner now t = record t {
  sessions = λ id. elim (t.sessions id) [
    | none ↦ none
    | some row ↦ if is_abandoned owner now t.tokens id row then none else some row
  ];
}

-- `purge_dead_sessions`
unfoldable pub purge_dead_sessions : ℕ → ℕ → AccountTables → AccountTables
unfolding purge_tokens purge_sessions
purge_dead_sessions owner now t = purge_sessions owner now (purge_tokens owner now t)

pub record RevokedDevice : Type 0 where
  pub device_name : String
  pub member_name : String
  pub store_id : Option ℕ

abbrev pub member_of : DeviceSession → AccountTables → Option StaffMember
member_of row t = elim row.staff_id [ none ↦ none | some staff ↦ t.staff_members staff ]

abbrev pub revoked_device : OwnerRecord → DeviceSession → AccountTables → RevokedDevice
revoked_device owner row t = elim (member_of row t) [
  | none ↦ record { device_name = row.device_name; member_name = owner.full_name; store_id = none }
  | some member ↦ record {
    device_name = row.device_name;
    member_name = member.display_name;
    store_id = some member.store_id;
  }
]

-- `DeviceRepository::revoke`
unfoldable pub revoke : ℕ → ℕ → ℕ → AccountTables → Option RevokedDevice × AccountTables
revoke owner session now t = elim (t.sessions session) [
  | none ↦ (none, t)
  | some row ↦ elim (find_owner_by_id row.owner_id t) [
    | none ↦ (none, t)
    | some person ↦
        if (row.owner_id == owner) && not (is_some row.revoked_at)
        then (some (revoked_device person row t), ended session row now t)
        else (none, t)
  ]
]
