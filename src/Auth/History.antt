-- ===== src/Auth/History.antt =====
-- What the requests of backend/src/features/authentication, staff and devices do to the tables of
-- sessions, refresh tokens, staff and join codes, as a sequence of the repositories' statements in any order and at any times, so also of
-- several requests that run at once. Registration, which adds an owner, a store and a subscription,
-- writes to none of these tables and is left out.
pub mod ForGood
pub mod Rotation
pub mod SignedOut
use kitaza.Common.{ℕ, String, ◌≡◌, Bool, false, Option, List, [], ◌∷◌, ◌==◌}
use kitaza.Access.Permission.{Permissions}
use kitaza.Auth.Tables.{AccountTables}
use kitaza.Auth.Devices.{
  open_session, touch_session, store_refresh_token, mark_rotated, end_session_for_token,
  purge_tokens, purge_sessions, revoke,
}
use kitaza.Auth.Staff.{create, update, remove, replace_invite, redeem}

pub data Statement : Type 0 where
  opens : ℕ → ℕ → Option ℕ → String → Statement
  touches : ℕ → Statement
  stores : ℕ → ℕ → ℕ → ℕ → Statement
  rotates : ℕ → Statement
  ends : ℕ → Statement
  purges_tokens purges_sessions : ℕ → Statement
  revokes : ℕ → ℕ → Statement
  creates : ℕ → ℕ → String → Permissions → Statement
  updates : ℕ → ℕ → String → Permissions → Statement
  removes : ℕ → ℕ → Statement
  invites : ℕ → ℕ → ℕ → Statement
  redeems : ℕ → Statement

unfoldable pub step : ℕ → Statement → AccountTables → AccountTables
unfolding open_session touch_session store_refresh_token mark_rotated end_session_for_token
    purge_tokens purge_sessions revoke create update remove replace_invite redeem
step now (opens session owner staff device) t = (open_session session owner staff device now t).1
step now (touches session) t = touch_session session now t
step now (stores owner session hash expires) t =
    (store_refresh_token owner session hash expires t).1
step now (rotates hash) t = mark_rotated hash now t
step now (ends hash) t = end_session_for_token hash now t
step now (purges_tokens owner) t = purge_tokens owner now t
step now (purges_sessions owner) t = purge_sessions owner now t
step now (revokes owner session) t = (revoke owner session now t).1
step now (creates id store name permissions) t = (create id store name permissions now t).1
step now (updates store staff name permissions) t = (update store staff name permissions t).1
step now (removes store staff) t = (remove store staff now t).1
step now (invites staff hash expires) t = (replace_invite staff hash expires t).1
step now (redeems hash) t = (redeem hash now t).1

-- The tables after a history, each statement with its time.
unfoldable pub run : List (ℕ × Statement) → AccountTables → AccountTables
unfolding step
run [] t = t
run ((now, s) ∷ rest) t = run rest (step now s t)

-- Whether a statement draws this id for a new session.
abbrev pub opens_session : ℕ → Statement → Bool
opens_session session (opens drawn _ _ _) = drawn == session
opens_session _ _ = false

-- Whether a statement stores a token with this hash.
abbrev pub stores_token : ℕ → Statement → Bool
stores_token hash (stores _ _ drawn _) = drawn == hash
stores_token _ _ = false

abbrev pub None : (Statement → Bool) → List (ℕ × Statement) → Type 0
None p [] = Unit
None p ((_, s) ∷ rest) = (p s ≡ false) × None p rest
