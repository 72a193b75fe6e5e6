-- ===== src/Auth/History/Rotation/Grace.antt =====
-- The two sides of the grace period of an exchanged token.
use kitaza.Common.{
  ℕ, String, ◌+◌, ◌≤◌, ◌<◌, ◌≡◌, refl, true, false, none, some, List, arith, is_some, if◌then◌else◌,
  Option-cases, inl, inr,
}
use kitaza.Common.Failure.{err}
use kitaza.Access.Actor.{Actor}
use kitaza.Access.Sessions.{Remembered, resolve}
use kitaza.Auth.Directory.{database}
use kitaza.Auth.Tables.{AccountTables, RefreshToken, RefreshTokenRecord}
use kitaza.Auth.Devices.{
  touch_session, store_refresh_token, mark_rotated, rotate, find_refresh_token, token_of,
}
use kitaza.Auth.Service.{
  AuthEnv, Draw, Server, refresh, refuses, issue, sign_in_again, rotation_grace,
}
use kitaza.Auth.History.{Statement, None, stores_token}
use kitaza.Auth.History.ForGood.{after, found_by}
use kitaza.Auth.History.Rotation.{
  succeeds, clock_ahead, refused_late, refresh-left, run-left, marked_tables-found, absent-hash,
}

-- A token that was exchanged is never exchanged again once the grace period of a day is over,
-- whatever statements were made in between, unless one stored the same token anew. The time of the
-- exchange must not lie before an earlier one of the same token.
pub exchanged_token_dies :
    (env : AuthEnv) (draw again : Draw) (now later : ℕ) (token : String) (qs : List (ℕ × Statement))
    (srv : Server) (m : Remembered)
    → clock_ahead (env.sha256 token) now srv.tables ≡ false
    → succeeds (refresh env draw now token srv) ≡ true
    → None (stores_token (env.sha256 token)) qs
    → now + rotation_grace ≤ later
    → let end = after qs (refresh env draw now token srv).1 m in
      refresh env again later token end ≡ (err sign_in_again, end)
exchanged_token_dies env draw again now later token qs srv m ahead e n late =
    let start = (refresh env draw now token srv).1 in
    refused_late env later token (after qs start m) again now
      (run-left (env.sha256 token) now qs start.tables n
        (refresh-left env now token srv draw ahead e))
      late

issue-found :
    (env : AuthEnv) (draw : Draw) (now hash : ℕ) (actor : Actor) (srv : Server) (k : RefreshToken)
    → token_of hash srv.tables ≡ some k
    → find_refresh_token hash (issue env draw now actor srv).1.tables
      ≡ find_refresh_token hash srv.tables
unfolding issue store_refresh_token find_refresh_token
issue-found env draw now hash actor srv k f =
    ground (arith, absent-hash hash (env.sha256 draw.refresh_token) srv.tables.tokens k f)

record-token :
    (hash : ℕ) (t : AccountTables) (found : RefreshTokenRecord)
    → find_refresh_token hash t ≡ some found
    → (k : RefreshToken) × (token_of hash t ≡ some k) × (k.session_id ≡ found.session_id)
unfolding find_refresh_token
record-token hash t found e = elim (Option-cases (token_of hash t)) [
  | inl f ↦ absurd (ground arith)
  | inr (k, f) ↦ (k, f, ground arith)
]

-- Marking the token and touching its session change what is found of it in one column only.
marked-record :
    (hash now : ℕ) (t : AccountTables) (found : RefreshTokenRecord)
    → find_refresh_token hash t ≡ some found
    → found.rotated_at ≡ none
    → find_refresh_token hash (touch_session found.session_id now (mark_rotated hash now t))
      ≡ some (record found { rotated_at = some now })
unfolding find_refresh_token touch_session mark_rotated
marked-record hash now t found e fresh =
    let (k, f, _) = record-token hash t found e in
    ground (arith, marked_tables-found hash now found.session_id t k f)

refresh-found :
    (env : AuthEnv) (draw : Draw) (now : ℕ) (token : String) (srv : Server)
    (found : RefreshTokenRecord)
    → found_by env token srv ≡ some found
    → found.rotated_at ≡ none
    → refuses found now ≡ false
    → found_by env token (refresh env draw now token srv).1
      ≡ some (record found { rotated_at = some now })
unfolding refresh
refresh-found env draw now token srv found e fresh live =
    let hash = env.sha256 token in
    let (k, f, _) = record-token hash srv.tables found e in
    let marked = touch_session found.session_id now (mark_rotated hash now srv.tables) in
    let (actor, m) = resolve (database marked) found.session_id now now srv.resolved in
    let found_again = marked-record hash now srv.tables found e fresh in
    elim (Option-cases actor) [
      | inl g ↦ ground arith
      | inr (a, g) ↦ ground (
        arith,
        issue-found env draw now hash a (record { tables = marked; resolved = m })
            (if is_some k.rotated_at then k else rotate now k)
            (marked_tables-found hash now found.session_id srv.tables k f),
      )
    ]

-- A first exchange whose reply is lost can be repeated: while the grace period lasts and the token
-- has not expired, what the server finds of it does not make it refuse.
pub lost_reply :
    (env : AuthEnv) (draw : Draw) (now later : ℕ) (token : String) (srv : Server)
    (found : RefreshTokenRecord)
    → found_by env token srv ≡ some found
    → found.rotated_at ≡ none
    → refuses found now ≡ false
    → later < now + rotation_grace
    → later < found.expires_at
    → (again : RefreshTokenRecord) × (found_by env token (refresh env draw now token srv).1
        ≡ some again)
      × (again.session_id ≡ found.session_id)
      × (refuses again later ≡ false)
unfolding refuses
lost_reply env draw now later token srv found e fresh live soon valid = (
  record found { rotated_at = some now },
  refresh-found env draw now token srv found e fresh live,
  refl,
  ground arith,
)
