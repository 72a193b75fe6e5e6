-- ===== src/Auth/Tests.antt =====
-- Concrete runs of signing in and out.
mod Joining
use text.Mathlib.Text.{◌==◌ as str_eq}
use kitaza.Common.{
  ℕ, String, ◌+◌, ◌*◌, ◌≡◌, refl, true, false, Option, none, some, List, [], ◌∷◌, if◌then◌else◌,
  ◌==◌, arith,
}
use kitaza.Common.Failure.{ok, err, too_many_requests}
use kitaza.Access.Actor.{Actor}
use kitaza.Access.Sessions.{actor_in}
use kitaza.Auth.Tables.{
  OwnerRecord, StoreRecord, DeviceSession, RefreshToken, StaffMember, AccountTables,
  RefreshTokenRecord,
}
use kitaza.Auth.Devices.{
  revoke, open_session, store_refresh_token, touch_session, find_refresh_token, mark_rotated,
  end_session_for_token, nanos_per_day,
}
use kitaza.Auth.Staff.{remove}
use kitaza.Auth.Directory.{database}
use kitaza.Auth.Service.{
  AuthEnv, Draw, Server, refresh, refuses, logout, issue, account, sign_in_again, rotation_grace,
}
use kitaza.Auth.Staffing.{revoke_device, remove_staff}
use kitaza.Auth.History.{
  Statement, opens, touches, stores, run, step, None, opens_session, stores_token,
}
use kitaza.Auth.History.SignedOut.{names_session, names_staff}
use kitaza.Auth.History.ForGood.{
  after, found_by, revoke_device_for_good, logout_for_good, remove_staff_for_good,
  removed_staff_are_nobody, row_of_staff,
}
use kitaza.Auth.History.Rotation.{succeeds, clock_ahead}
use kitaza.Auth.History.Rotation.Grace.{exchanged_token_dies, lost_reply}

abbrev digest : List ℕ → ℕ
digest [] = 0
digest (c ∷ t) = c + 131 * digest t

abbrev pub hash_of : String → ℕ
hash_of token =
    if str_eq token "owner's"
    then 1
    else if str_eq token "staff's"
    then 2
    else if str_eq token "late"
    then 3
    else 4

abbrev pub env : AuthEnv
env = record {
  trim = λ s. s;
  to_lowercase = λ s. s;
  take_chars = λ _ s. s;
  sha256 = hash_of;
  sha256_text = digest;
  hash_password = λ s. ok s;
  verify_password = str_eq;
  issue_access_token = λ _ _ _. ok "signed";
  show = λ _. "";
  refresh_lifetime = 30 * nanos_per_day;
}

abbrev draw : Draw
draw = record { session = 20; refresh_token = "next" }

abbrev pub nena : OwnerRecord
nena = record { id = 1; email = "nena"; password_hash = "secret"; full_name = "Aling Nena" }

abbrev pub corner_shop : StoreRecord
corner_shop = record {
  id = 2;
  owner_id = 1;
  name = "Nena's";
  business_type = "sari_sari";
  currency_code = "PHP";
  share_benchmarks = true;
  created_at = 5;
}

abbrev session : Option ℕ → DeviceSession
session staff = record {
  owner_id = 1;
  staff_id = staff;
  device_name = "phone";
  created_at = 10;
  last_seen_at = 10;
  revoked_at = none;
}

abbrev token : ℕ → ℕ → RefreshToken
token of hash = record {
  owner_id = 1;
  session_id = of;
  token_hash = hash;
  expires_at = 20 * nanos_per_day;
  revoked_at = none;
  rotated_at = none;
}

abbrev pub helper : StaffMember
helper = record {
  store_id = 2;
  display_name = "Jun";
  permissions = record {
    manage_products = false;
    record_expenses = false;
    view_profit = false;
    delete_records = false;
  };
  created_at = 7;
  removed_at = none;
}

-- The owner's phone has session 10, the helper's has 11.
abbrev pub tables : AccountTables
tables = record {
  owners = nena ∷ [];
  stores = corner_shop ∷ [];
  subscriptions = λ _. none;
  sessions = λ id.
      if id == 10 then some (session none) else if id == 11 then some (session (some 5)) else none;
  tokens = token 10 1 ∷ token 11 2 ∷ [];
  staff_members = λ id. if id == 5 then some helper else none;
  invites = [];
}

abbrev pub srv : Server
srv = record { tables = tables; resolved = [] }

abbrev pub owner : Actor
owner = record {
  owner_id = 1;
  session_id = 10;
  name = "Aling Nena";
  device_name = "phone";
  staff = none;
  subscription = none;
}

-- A refresh that was running stores its token after the session has ended.
abbrev running : List (ℕ × Statement)
running = (110, touches 11) ∷ (120, stores 1 11 3 (30 * nanos_per_day)) ∷ []

revoked_lem : (revoke_device owner 11 100 srv).0 ≡ ok tt
unfolding revoke_device revoke
revoked_lem = refl

late_lem :
    names_session 11 (found_by env "late" (after running (revoke_device owner 11 100 srv).1 []))
    ≡ true
unfolding revoke_device revoke run step touch_session store_refresh_token find_refresh_token
late_lem = refl

revoke_device_for_good_example :
    let end = after running (revoke_device owner 11 100 srv).1 [] in
    (refresh env draw 200 "late" end ≡ (err sign_in_again, end))
    × (actor_in (database end.tables) 11 ≡ none)
revoke_device_for_good_example =
    revoke_device_for_good env draw 100 200 "late" running srv [] 11 (refl, (refl, tt)) owner
      revoked_lem late_lem

own_lem : names_session 10 (found_by env "owner's" srv) ≡ true
unfolding find_refresh_token
own_lem = refl

out_lem :
    names_session 10 (found_by env "owner's" (after [] (logout env 100 "owner's" srv).1 [])) ≡ true
unfolding logout end_session_for_token run find_refresh_token
out_lem = refl

removed_lem : (remove_staff 2 5 100 srv).0 ≡ ok tt
unfolding remove_staff remove
removed_lem = refl

-- A join that was running opens a session for the helper who has just been removed.
abbrev joining : List (ℕ × Statement)
joining = (110, opens 12 1 (some 5) "phone") ∷ (120, stores 1 12 3 (30 * nanos_per_day)) ∷ []

joined_lem :
    names_staff 5 (found_by env "late" (after joining (remove_staff 2 5 100 srv).1 [])) ≡ true
unfolding remove_staff remove run step open_session store_refresh_token find_refresh_token
joined_lem = refl

remove_staff_for_good_example :
    let end = after joining (remove_staff 2 5 100 srv).1 [] in
    refresh env draw 200 "late" end ≡ (err sign_in_again, end)
remove_staff_for_good_example =
    remove_staff_for_good env draw 100 200 "late" joining srv [] 2 5 removed_lem joined_lem

opened_lem : row_of_staff 5 ((run joining (remove_staff 2 5 100 srv).1.tables).sessions 12) ≡ true
unfolding remove_staff remove run step open_session store_refresh_token
opened_lem = refl

removed_staff_are_nobody_example :
    actor_in (database (run joining (remove_staff 2 5 100 srv).1.tables)) 12 ≡ none
removed_staff_are_nobody_example =
    removed_staff_are_nobody 2 5 12 100 joining srv removed_lem opened_lem

exchanged_lem : succeeds (refresh env draw 100 "owner's" srv) ≡ true
unfolding refresh find_refresh_token refuses mark_rotated touch_session database issue
    store_refresh_token account
exchanged_lem = refl

exchanged_token_dies_example :
    let end = after running (refresh env draw 100 "owner's" srv).1 [] in
    refresh env draw (100 + rotation_grace) "owner's" end ≡ (err sign_in_again, end)
exchanged_token_dies_example =
    exchanged_token_dies env draw draw 100 (100 + rotation_grace) "owner's" running srv [] refl
      exchanged_lem (refl, (refl, tt)) (omega arith)

abbrev owners_token : RefreshTokenRecord
owners_token = record {
  owner_id = 1;
  session_id = 10;
  staff_id = none;
  expires_at = 20 * nanos_per_day;
  revoked_at = none;
  rotated_at = none;
  session_live = true;
  staff_live = true;
}

found_lem : found_by env "owner's" srv ≡ some owners_token
unfolding find_refresh_token
found_lem = refl

accepted_lem : refuses owners_token 100 ≡ false
unfolding refuses
accepted_lem = refl

lost_reply_example :
    (again : RefreshTokenRecord) × (found_by env "owner's" (refresh env draw 100 "owner's" srv).1
      ≡ some again)
    × (again.session_id ≡ 10)
    × (refuses again 500 ≡ false)
lost_reply_example =
    lost_reply env draw 100 500 "owner's" srv owners_token found_lem refl accepted_lem (omega arith)
      (omega arith)
