-- ===== src/Auth/History/ForGood.antt =====
-- Signing out, signing a device out and removing a staff member are for good, whatever statements
-- the requests that run at the same time or later make.
use kitaza.Common.{ℕ, String, ◌≡◌, Bool, true, false, Option, none, some, List, arith}
use kitaza.Common.Failure.{ok, err}
use kitaza.Access.Actor.{Actor, eqb_id}
use kitaza.Access.Sessions.{Remembered, actor_in}
use kitaza.Auth.Tables.{AccountTables, DeviceSession, RefreshTokenRecord}
use kitaza.Auth.Devices.{find_refresh_token, end_session_for_token, revoke}
use kitaza.Auth.Staff.{remove}
use kitaza.Auth.Directory.{database}
use kitaza.Auth.Service.{AuthEnv, Draw, Server, refresh, logout, sign_in_again}
use kitaza.Auth.Staffing.{remove_staff, revoke_device}
use kitaza.Auth.History.{Statement, run, None, opens_session}
use kitaza.Auth.History.SignedOut.{
  has_ended, is_removed, names_session, names_staff, run-has_ended, run-is_removed,
  refresh-has_ended, refresh-is_removed,
}

abbrev pub row_of_staff : ℕ → Option DeviceSession → Bool
row_of_staff staff none = false
row_of_staff staff (some row) = eqb_id row.staff_id (some staff)

actor_in-has_ended :
    (session : ℕ) (t : AccountTables)
    → has_ended session t ≡ true
    → actor_in (database t) session ≡ none
unfolding database actor_in
actor_in-has_ended session t h = ground arith

actor_in-is_removed :
    (staff session : ℕ) (t : AccountTables)
    → is_removed staff t ≡ true
    → row_of_staff staff (t.sessions session) ≡ true
    → actor_in (database t) session ≡ none
unfolding database actor_in
actor_in-is_removed staff session t h n = ground arith

revoke_device-has_ended :
    (owner : Actor) (session now : ℕ) (srv : Server)
    → (revoke_device owner session now srv).0 ≡ ok tt
    → has_ended session (revoke_device owner session now srv).1.tables ≡ true
unfolding revoke_device revoke
revoke_device-has_ended owner session now srv e = ground arith

logout-has_ended :
    (env : AuthEnv) (session now : ℕ) (token : String) (srv : Server)
    → names_session session (find_refresh_token (env.sha256 token) srv.tables) ≡ true
    → has_ended session (logout env now token srv).1.tables ≡ true
unfolding logout find_refresh_token end_session_for_token
logout-has_ended env session now token srv e = ground arith

remove_staff-is_removed :
    (store staff now : ℕ) (srv : Server)
    → (remove_staff store staff now srv).0 ≡ ok tt
    → is_removed staff (remove_staff store staff now srv).1.tables ≡ true
unfolding remove_staff remove
remove_staff-is_removed store staff now srv e = ground arith

-- A server after a history, whatever it remembers of sessions.
abbrev pub after : List (ℕ × Statement) → Server → Remembered → Server
after qs srv m = record { tables = run qs srv.tables; resolved = m }

abbrev pub found_by : AuthEnv → String → Server → Option RefreshTokenRecord
found_by env token srv = find_refresh_token (env.sha256 token) srv.tables

module _ (env : AuthEnv) (draw : Draw) (now later : ℕ) (token : String) where
  module _ (qs : List (ℕ × Statement)) (srv : Server) (m : Remembered) where
    module _ (session : ℕ) (n : None (opens_session session) qs) where
      -- Once an owner has signed a device out, no refresh token of its session is exchanged for a new
      -- one, and its session stands for nobody in the database: whatever statements follow, in any
      -- order and at any times, of requests that were already running too, unless one draws the
      -- session's id again.
      pub revoke_device_for_good :
          (owner : Actor)
          → (revoke_device owner session now srv).0 ≡ ok tt
          → names_session session
              (found_by env token (after qs (revoke_device owner session now srv).1 m))
            ≡ true
          → let end = after qs (revoke_device owner session now srv).1 m in
            (refresh env draw later token end ≡ (err sign_in_again, end))
            × (actor_in (database end.tables) session ≡ none)
      revoke_device_for_good owner e named =
          let start = (revoke_device owner session now srv).1 in
          let h =
            run-has_ended session qs start.tables n
              (revoke_device-has_ended owner session now srv e) in
          (
            refresh-has_ended env draw later token (after qs start m) session h named,
            actor_in-has_ended session (run qs start.tables) h,
          )

      -- Signing out with a token ends its whole session in the same way: afterwards neither that token
      -- nor another of the session is exchanged, whatever statements follow.
      pub logout_for_good :
          (last : String)
          → names_session session (found_by env last srv) ≡ true
          → names_session session (found_by env token (after qs (logout env now last srv).1 m))
            ≡ true
          → let end = after qs (logout env now last srv).1 m in
            (refresh env draw later token end ≡ (err sign_in_again, end))
            × (actor_in (database end.tables) session ≡ none)
      logout_for_good last own named =
          let start = (logout env now last srv).1 in
          let h =
            run-has_ended session qs start.tables n
              (logout-has_ended env session now last srv own) in
          (
            refresh-has_ended env draw later token (after qs start m) session h named,
            actor_in-has_ended session (run qs start.tables) h,
          )

    -- Once a staff member has been removed, no refresh token of theirs is exchanged, whatever
    -- statements follow.
    pub remove_staff_for_good :
        (store staff : ℕ)
        → (remove_staff store staff now srv).0 ≡ ok tt
        → names_staff staff (found_by env token (after qs (remove_staff store staff now srv).1 m))
          ≡ true
        → let end = after qs (remove_staff store staff now srv).1 m in
          refresh env draw later token end ≡ (err sign_in_again, end)
    remove_staff_for_good store staff e named =
        let start = (remove_staff store staff now srv).1 in
        let h =
          run-is_removed staff qs start.tables (remove_staff-is_removed store staff now srv e) in
        refresh-is_removed env draw later token (after qs start m) staff h named

-- Nor does a session of theirs stand for anybody in the database, not even one that is opened
-- afterwards by a request that was already running.
pub removed_staff_are_nobody :
    (store staff session now : ℕ) (qs : List (ℕ × Statement)) (srv : Server)
    → (remove_staff store staff now srv).0 ≡ ok tt
    → row_of_staff staff ((run qs (remove_staff store staff now srv).1.tables).sessions session)
      ≡ true
    → actor_in (database (run qs (remove_staff store staff now srv).1.tables)) session ≡ none
removed_staff_are_nobody store staff session now qs srv e own =
    let start = (remove_staff store staff now srv).1.tables in
    let h = run-is_removed staff qs start (remove_staff-is_removed store staff now srv e) in
    actor_in-is_removed staff session (run qs start) h own
