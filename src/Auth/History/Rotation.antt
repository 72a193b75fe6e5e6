-- ===== src/Auth/History/Rotation.antt =====
-- A refresh token that has been exchanged works on for the grace period, and then never again.
pub mod Grace
use kitaza.Common.{
  ℕ, String, ◌+◌, ◌≤◌, ◌<◌, ◌≡◌, refl, ap, ◌∙◌, sym, Bool, true, false, ◌&&◌, ◌||◌, not, Option,
  none, some, List, [], ◌∷◌, arith, ◌==◌, is_some, if◌then◌else◌, Option-cases, Bool-cases, inl,
  inr, leb, any, any-select, any-update_where, find, update_where,
}
use kitaza.Common.Failure.{ApiResult, ok, err}
use kitaza.Access.Actor.{Actor}
use kitaza.Access.Sessions.{resolve}
use kitaza.Auth.Directory.{database}
use kitaza.Auth.Tables.{AccountTables, DeviceSession, RefreshToken, RefreshTokenRecord}
use kitaza.Auth.Devices.{
  open_session, touch_session, store_refresh_token, mark_rotated, end_session_for_token,
  purge_tokens, purge_sessions, revoke, rotate, ended, token_of, find_refresh_token, revoke_tokens,
  is_spent,
}
use kitaza.Auth.Staff.{create, update, remove, replace_invite, redeem, is_device_of}
use kitaza.Auth.Service.{
  AuthEnv, Draw, Server, AuthenticatedSession, refresh, refuses, issue, sign_in_again,
  rotation_grace,
}
use kitaza.Auth.History.{
  Statement, opens, touches, stores, rotates, ends, purges_tokens, purges_sessions, revokes,
  creates, updates, removes, invites, redeems, step, run, None, stores_token,
}
use kitaza.Auth.History.ForGood.{after, found_by}

abbrev pub rotated_by : ℕ → Option ℕ → Bool
rotated_by at none = false
rotated_by at (some r) = leb r at

abbrev pub rotated_after : ℕ → Option ℕ → Bool
rotated_after at none = false
rotated_after at (some r) = not (leb r at)

-- Whether a token with this hash has not been exchanged at the latest at the time.
abbrev pub is_left : ℕ → ℕ → RefreshToken → Bool
is_left hash at k = (k.token_hash == hash) && not (rotated_by at k.rotated_at)

abbrev pub left : ℕ → ℕ → AccountTables → Bool
left hash at t = any (is_left hash at) t.tokens

module _ (hash at : ℕ) where
  left-revoke_tokens :
      (p : RefreshToken → Bool) (now : ℕ) (ks : List RefreshToken)
      → any (is_left hash at) ks ≡ false
      → any (is_left hash at) (revoke_tokens p now ks) ≡ false
  left-revoke_tokens p now [] h = h
  left-revoke_tokens p now (k ∷ ks) h = ground (arith, left-revoke_tokens p now ks)

  left-ended :
      (now : ℕ) (t : AccountTables)
      → left hash at t ≡ false
      → (session : ℕ) (row : DeviceSession) → left hash at (ended session row now t) ≡ false
  left-ended now t h session row = left-revoke_tokens (λ k. k.session_id == session) now t.tokens h

  left-end_session :
      (other now : ℕ) (t : AccountTables)
      → left hash at t ≡ false
      → left hash at (end_session_for_token other now t) ≡ false
  unfolding end_session_for_token
  left-end_session other now t h = elim (Option-cases (token_of other t)) [
    | inl e ↦ ground arith
    | inr (k, e) ↦ ground (arith, left-ended now t h k.session_id)
  ]

  left-revoke :
      (owner session now : ℕ) (t : AccountTables)
      → left hash at t ≡ false
      → left hash at (revoke owner session now t).1 ≡ false
  unfolding revoke
  left-revoke owner session now t h = ground (arith, left-ended now t h session)

  left-remove :
      (store staff now : ℕ) (t : AccountTables)
      → left hash at t ≡ false
      → left hash at (remove store staff now t).1 ≡ false
  unfolding remove
  left-remove store staff now t h =
      ground (
        arith,
        left-revoke_tokens (λ k. is_device_of staff (t.sessions k.session_id)) now t.tokens h,
      )

  left-mark_rotated :
      (other now : ℕ) (ks : List RefreshToken)
      → any (is_left hash at) ks ≡ false
      → any (is_left hash at) (
          update_where (λ k. (k.token_hash == other) && not (is_some k.rotated_at)) (rotate now) ks)
        ≡ false
  left-mark_rotated other now [] h = h
  left-mark_rotated other now (k ∷ ks) h = ground (arith, left-mark_rotated other now ks)

  step-left :
      (now : ℕ) (s : Statement) (t : AccountTables)
      → stores_token hash s ≡ false
      → left hash at t ≡ false
      → left hash at (step now s t) ≡ false
  unfolding step open_session touch_session store_refresh_token mark_rotated end_session_for_token
      purge_tokens purge_sessions revoke create update remove replace_invite redeem
  step-left now (opens drawn owner who device) t n h = ground arith
  step-left now (touches other) t n h = ground arith
  step-left now (stores owner other drawn expires) t n h = ground arith
  step-left now (rotates other) t n h = left-mark_rotated other now t.tokens h
  step-left now (ends other) t n h = left-end_session other now t h
  step-left now (purges_tokens owner) t n h = any-select (is_left hash at) _ t.tokens h
  step-left now (purges_sessions owner) t n h = h
  step-left now (revokes owner other) t n h = left-revoke owner other now t h
  step-left now (creates id store name permissions) t n h = ground arith
  step-left now (updates store who name permissions) t n h = ground arith
  step-left now (removes store who) t n h = left-remove store who now t h
  step-left now (invites who drawn expires) t n h = ground arith
  step-left now (redeems drawn) t n h = ground arith

  pub run-left :
      (qs : List (ℕ × Statement)) (t : AccountTables)
      → None (stores_token hash) qs
      → left hash at t ≡ false
      → left hash at (run qs t) ≡ false
  unfolding run
  run-left [] t n h = h
  run-left ((now, s) ∷ qs) t n h = run-left qs (step now s t) n.1 (step-left now s t n.0 h)

  mark-left :
      (ks : List RefreshToken)
      → any (λ k. (k.token_hash == hash) && rotated_after at k.rotated_at) ks ≡ false
      → any
          (is_left hash at)
          (update_where (λ k. (k.token_hash == hash) && not (is_some k.rotated_at)) (rotate at) ks)
        ≡ false
  mark-left [] h = refl
  mark-left (k ∷ ks) h = ground (arith, mark-left ks)

  find-left :
      (ks : List RefreshToken) (k : RefreshToken)
      → any (is_left hash at) ks ≡ false
      → find (λ k. k.token_hash == hash) ks ≡ some k
      → rotated_by at k.rotated_at ≡ true
  find-left [] k h e = absurd cc
  find-left (j ∷ ks) k h e = ground (arith, find-left ks k)

abbrev pub succeeds : ApiResult AuthenticatedSession × Server → Bool
succeeds (ok _, _) = true
succeeds (err _, _) = false

-- No token with this hash is marked as exchanged after now: the clock has not gone back.
abbrev pub clock_ahead : ℕ → ℕ → AccountTables → Bool
clock_ahead hash now t =
    any (λ k. (k.token_hash == hash) && rotated_after now k.rotated_at) t.tokens

pub absent-hash :
    (hash other : ℕ) (ks : List RefreshToken) (k : RefreshToken)
    → find (λ j. j.token_hash == hash) ks ≡ some k
    → any (λ j. j.token_hash == other) ks ≡ false
    → (other == hash) ≡ false
absent-hash hash other [] k f n = absurd cc
absent-hash hash other (j ∷ ks) k f n = ground (arith, absent-hash hash other ks k)

-- Issuing a token leaves those of a hash that is there as they are.
issue-left :
    (env : AuthEnv) (draw : Draw) (now hash at : ℕ) (actor : Actor) (srv : Server)
    (k : RefreshToken)
    → token_of hash srv.tables ≡ some k
    → left hash at srv.tables ≡ false
    → left hash at (issue env draw now actor srv).1.tables ≡ false
unfolding issue store_refresh_token
issue-left env draw now hash at actor srv k f h =
    ground (arith, absent-hash hash (env.sha256 draw.refresh_token) srv.tables.tokens k f)

marked_tables-left :
    (hash now session : ℕ) (t : AccountTables)
    → clock_ahead hash now t ≡ false
    → left hash now (touch_session session now (mark_rotated hash now t)) ≡ false
unfolding touch_session mark_rotated
marked_tables-left hash now session t h = ground (arith, mark-left hash now t.tokens h)

mark-found :
    (hash now : ℕ) (ks : List RefreshToken) (k : RefreshToken)
    → find (λ j. j.token_hash == hash) ks ≡ some k
    → find
        (λ j. j.token_hash == hash)
        (update_where (λ j. (j.token_hash == hash) && not (is_some j.rotated_at)) (rotate now) ks)
      ≡ some (if is_some k.rotated_at then k else rotate now k)
mark-found hash now [] k f = absurd cc
mark-found hash now (j ∷ ks) k f = ground (arith, mark-found hash now ks k)

pub marked_tables-found :
    (hash now session : ℕ) (t : AccountTables) (k : RefreshToken)
    → token_of hash t ≡ some k
    → token_of hash (touch_session session now (mark_rotated hash now t))
      ≡ some (if is_some k.rotated_at then k else rotate now k)
unfolding touch_session mark_rotated
marked_tables-found hash now session t k f = ground (arith, mark-found hash now t.tokens k f)

module _ (env : AuthEnv) (now : ℕ) (token : String) (srv : Server) where
  pub refused_late :
      (draw : Draw) (at : ℕ)
      → left (env.sha256 token) at srv.tables ≡ false
      → at + rotation_grace ≤ now
      → refresh env draw now token srv ≡ (err sign_in_again, srv)
  unfolding refresh find_refresh_token refuses
  refused_late draw at h late = elim (Option-cases (token_of (env.sha256 token) srv.tables)) [
    | inl e ↦ ground arith
    | inr (k, e) ↦ ground (arith, find-left (env.sha256 token) at srv.tables.tokens k h e)
  ]

  pub refresh-left :
      (draw : Draw)
      → clock_ahead (env.sha256 token) now srv.tables ≡ false
      → succeeds (refresh env draw now token srv) ≡ true
      → left (env.sha256 token) now (refresh env draw now token srv).1.tables ≡ false
  unfolding refresh find_refresh_token
  refresh-left draw h e = elim (Option-cases (token_of (env.sha256 token) srv.tables)) [
    | inl f ↦ ground arith
    | inr (k, f) ↦
        let marked =
          touch_session k.session_id now (mark_rotated (env.sha256 token) now srv.tables) in
        elim (Option-cases (resolve (database marked) k.session_id now now srv.resolved).0) [
          | inl g ↦
              ground (arith, marked_tables-left (env.sha256 token) now k.session_id srv.tables h)
          | inr (a, g) ↦ ground (
            arith,
            issue-left env draw now (env.sha256 token) now a
                (record {
                  tables = marked;
                  resolved = (resolve (database marked) k.session_id now now srv.resolved).1;
                })
                (if is_some k.rotated_at then k else rotate now k)
                (marked_tables-found (env.sha256 token) now k.session_id srv.tables k f)
                (marked_tables-left (env.sha256 token) now k.session_id srv.tables h),
          )
        ]
  ]
