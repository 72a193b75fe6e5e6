-- ===== src/Auth/History/SignedOut.antt =====
-- What no statement undoes: a session that has ended, and a staff member's removal.
use kitaza.Common.{
  ℕ, String, ◌≡◌, Bool, true, false, Option, none, some, List, [], ◌∷◌, arith, ◌==◌, is_some,
}
use kitaza.Auth.Tables.{AccountTables, DeviceSession, StaffMember}
use kitaza.Auth.Devices.{
  open_session, touch_session, store_refresh_token, mark_rotated, end_session_for_token,
  purge_tokens, purge_sessions, revoke, find_refresh_token,
}
use kitaza.Common.Failure.{err}
use kitaza.Access.Actor.{eqb_id}
use kitaza.Auth.Service.{AuthEnv, Draw, Server, refresh, refuses, sign_in_again}
use kitaza.Auth.Tables.{RefreshTokenRecord}
use kitaza.Auth.Staff.{create, update, remove, replace_invite, redeem}
use kitaza.Auth.History.{
  Statement, opens, touches, stores, rotates, ends, purges_tokens, purges_sessions, revokes,
  creates, updates, removes, invites, redeems, step, run, None, opens_session,
}

abbrev pub row_has_ended : Option DeviceSession → Bool
row_has_ended none = true
row_has_ended (some row) = is_some row.revoked_at

-- The session is not live: its row is marked, or gone.
abbrev pub has_ended : ℕ → AccountTables → Bool
has_ended session t = row_has_ended (t.sessions session)

abbrev pub row_is_removed : Option StaffMember → Bool
row_is_removed none = false
row_is_removed (some member) = is_some member.removed_at

abbrev pub is_removed : ℕ → AccountTables → Bool
is_removed staff t = row_is_removed (t.staff_members staff)

step-has_ended :
    (session now : ℕ) (s : Statement) (t : AccountTables)
    → opens_session session s ≡ false
    → has_ended session t ≡ true
    → has_ended session (step now s t) ≡ true
unfolding step open_session touch_session store_refresh_token end_session_for_token purge_tokens
    purge_sessions revoke create update remove replace_invite redeem
step-has_ended session now (opens drawn owner staff device) t e h = ground arith
step-has_ended session now (touches other) t e h = ground arith
step-has_ended session now (stores owner other hash expires) t e h = ground arith
step-has_ended session now (rotates hash) t e h = h
step-has_ended session now (ends hash) t e h = ground arith
step-has_ended session now (purges_tokens owner) t e h = ground arith
step-has_ended session now (purges_sessions owner) t e h = ground arith
step-has_ended session now (revokes owner other) t e h = ground arith
step-has_ended session now (creates id store name permissions) t e h = ground arith
step-has_ended session now (updates store staff name permissions) t e h = ground arith
step-has_ended session now (removes store staff) t e h = ground arith
step-has_ended session now (invites staff hash expires) t e h = ground arith
step-has_ended session now (redeems hash) t e h = ground arith

step-is_removed :
    (staff now : ℕ) (s : Statement) (t : AccountTables)
    → is_removed staff t ≡ true
    → is_removed staff (step now s t) ≡ true
unfolding step open_session touch_session store_refresh_token mark_rotated end_session_for_token
    purge_tokens purge_sessions revoke create update remove replace_invite redeem
step-is_removed staff now (opens drawn owner who device) t h = ground arith
step-is_removed staff now (touches other) t h = ground arith
step-is_removed staff now (stores owner other hash expires) t h = ground arith
step-is_removed staff now (rotates hash) t h = h
step-is_removed staff now (ends hash) t h = ground arith
step-is_removed staff now (purges_tokens owner) t h = ground arith
step-is_removed staff now (purges_sessions owner) t h = ground arith
step-is_removed staff now (revokes owner other) t h = ground arith
step-is_removed staff now (creates id store name permissions) t h = ground arith
step-is_removed staff now (updates store who name permissions) t h = ground arith
step-is_removed staff now (removes store who) t h = ground arith
step-is_removed staff now (invites who hash expires) t h = ground arith
step-is_removed staff now (redeems hash) t h = ground arith

pub run-has_ended :
    (session : ℕ) (qs : List (ℕ × Statement)) (t : AccountTables)
    → None (opens_session session) qs
    → has_ended session t ≡ true
    → has_ended session (run qs t) ≡ true
unfolding run
run-has_ended session [] t n h = h
run-has_ended session ((now, s) ∷ qs) t n h =
    run-has_ended session qs (step now s t) n.1 (step-has_ended session now s t n.0 h)

pub run-is_removed :
    (staff : ℕ) (qs : List (ℕ × Statement)) (t : AccountTables)
    → is_removed staff t ≡ true
    → is_removed staff (run qs t) ≡ true
unfolding run
run-is_removed staff [] t h = h
run-is_removed staff ((now, s) ∷ qs) t h =
    run-is_removed staff qs (step now s t) (step-is_removed staff now s t h)

-- A token that the tables find belongs to a session, which says whose it is.
abbrev pub names_session : ℕ → Option RefreshTokenRecord → Bool
names_session session none = false
names_session session (some found) = found.session_id == session

abbrev pub names_staff : ℕ → Option RefreshTokenRecord → Bool
names_staff staff none = false
names_staff staff (some found) = eqb_id found.staff_id (some staff)

module _ (env : AuthEnv) (draw : Draw) (now : ℕ) (refresh_token : String) (srv : Server) where
  pub refresh-has_ended :
      (session : ℕ)
      → has_ended session srv.tables ≡ true
      → names_session session (find_refresh_token (env.sha256 refresh_token) srv.tables) ≡ true
      → refresh env draw now refresh_token srv ≡ (err sign_in_again, srv)
  unfolding refresh find_refresh_token refuses
  refresh-has_ended session h n = ground arith

  pub refresh-is_removed :
      (staff : ℕ)
      → is_removed staff srv.tables ≡ true
      → names_staff staff (find_refresh_token (env.sha256 refresh_token) srv.tables) ≡ true
      → refresh env draw now refresh_token srv ≡ (err sign_in_again, srv)
  unfolding refresh find_refresh_token refuses
  refresh-is_removed staff h n = ground arith
