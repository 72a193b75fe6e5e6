-- ===== src/Auth/Codes/OnceOnly.antt =====
-- So a code is used once, whatever happens to the tables in between.
use kitaza.Common.{
  ℕ, ◌≡◌, refl, sym, ap, subst, ◌∙◌, true, none, List, [], ◌∷◌, find, ◌==◌, arith, Option-cases,
  inl, inr,
}
use kitaza.Common.Failure.{ok}
use kitaza.Auth.Tables.{AccountTables}
use kitaza.Auth.Devices.{
  open_session, touch_session, store_refresh_token, mark_rotated, end_session_for_token,
  purge_tokens, purge_sessions, revoke,
}
use kitaza.Auth.Staff.{create, update, redeem, is_live_code}
use kitaza.Auth.History.{
  Statement, opens, touches, stores, rotates, ends, purges_tokens, purges_sessions, revokes,
  creates, updates, removes, invites, redeems, step, run,
}
use kitaza.Auth.Codes.{
  used, Codes, codes, status_of, IsDistinct, Allowed, stays, shares, uses, withdraws,
}
use kitaza.Auth.Codes.Refinement.{
  replace_invite-Allowed, redeem-Allowed, remove-Allowed, gives, redeem-gives, find-live,
  status-use_up,
}

same-Allowed :
    (now : ℕ) (s : Statement) (t : AccountTables)
    → IsDistinct t.invites
    → (step now s t).invites ≡ t.invites
    → Allowed now (codes t) (codes (step now s t)) × IsDistinct (step now s t).invites
same-Allowed now s t d e = (
  stays (λ h. ap (λ is. status_of (find (λ i. i.code_hash == h) is)) e),
  subst IsDistinct (sym e) d,
)

-- The table of codes refines its view: every statement is, on the view, one of the allowed steps,
-- and keeps the hashes distinct.
pub step-Allowed :
    (now : ℕ) (s : Statement) (t : AccountTables)
    → IsDistinct t.invites
    → Allowed now (codes t) (codes (step now s t)) × IsDistinct (step now s t).invites
unfolding step open_session touch_session store_refresh_token mark_rotated end_session_for_token
    purge_tokens purge_sessions revoke create update
step-Allowed now (opens session owner staff device) t d =
    same-Allowed now (opens session owner staff device) t d (ground arith)
step-Allowed now (touches session) t d = same-Allowed now (touches session) t d (ground arith)
step-Allowed now (stores owner session hash expires) t d =
    same-Allowed now (stores owner session hash expires) t d (ground arith)
step-Allowed now (rotates hash) t d = same-Allowed now (rotates hash) t d refl
step-Allowed now (ends hash) t d = same-Allowed now (ends hash) t d (ground arith)
step-Allowed now (purges_tokens owner) t d = same-Allowed now (purges_tokens owner) t d refl
step-Allowed now (purges_sessions owner) t d = same-Allowed now (purges_sessions owner) t d refl
step-Allowed now (revokes owner session) t d =
    same-Allowed now (revokes owner session) t d (ground arith)
step-Allowed now (creates id store name permissions) t d =
    same-Allowed now (creates id store name permissions) t d (ground arith)
step-Allowed now (updates store staff name permissions) t d =
    same-Allowed now (updates store staff name permissions) t d (ground arith)
step-Allowed now (removes store staff) t d = remove-Allowed store staff now t d
step-Allowed now (invites staff hash expires) t d =
    replace_invite-Allowed staff hash expires now t d
step-Allowed now (redeems hash) t d = redeem-Allowed hash now t d

-- A used code stays used.
Allowed-used : (now hash : ℕ) (a b : Codes) → Allowed now a b → a hash ≡ used → b hash ≡ used
Allowed-used now hash a b (stays same) e = ground (arith, same hash)
Allowed-used now hash a b (shares staff other expires new same) e = ground (arith, same hash)
Allowed-used now hash a b (uses other staff expires old soon same) e = ground (arith, same hash)
Allowed-used now hash a b (withdraws staff same) e = ground (arith, same hash)

run-used :
    (hash : ℕ) (qs : List (ℕ × Statement)) (t : AccountTables)
    → IsDistinct t.invites
    → codes t hash ≡ used
    → (codes (run qs t) hash ≡ used) × IsDistinct (run qs t).invites
unfolding run
run-used hash [] t d e = (e, d)
run-used hash ((now, s) ∷ qs) t d e =
    let (allowed, kept) = step-Allowed now s t d in
    run-used hash qs (step now s t) kept
      (Allowed-used now hash (codes t) (codes (step now s t)) allowed e)

redeem-marks :
    (hash now : ℕ) (t : AccountTables)
    → IsDistinct t.invites
    → gives (redeem hash now t).0 ≡ true
    → codes (redeem hash now t).1 hash ≡ used
redeem-marks hash now t d e = elim (redeem-gives hash now t) [
  | inl (_, f) ↦ absurd (ground arith)
  | inr (i, f, g) ↦
      let (_, here, _) = find-live hash now t.invites i d f in
      rw g (status-use_up hash now t here hash ∙ ground arith)
]

redeem-used :
    (hash now : ℕ) (t : AccountTables)
    → IsDistinct t.invites
    → codes t hash ≡ used
    → redeem hash now t ≡ (ok none, t)
unfolding redeem
redeem-used hash now t d e = elim (Option-cases (find (is_live_code hash now) t.invites)) [
  | inl f ↦ rw (f, redeem) refl
  | inr (i, f) ↦ let (live, _, _) = find-live hash now t.invites i d f in absurd (ground arith)
]

-- Once a code has let someone in, it lets nobody in again: a later use of it is refused and changes
-- nothing, whatever statements come between.
pub redeem_once :
    (hash now later : ℕ) (qs : List (ℕ × Statement)) (t : AccountTables)
    → IsDistinct t.invites
    → gives (redeem hash now t).0 ≡ true
    → redeem hash later (run qs (redeem hash now t).1) ≡ (ok none, run qs (redeem hash now t).1)
redeem_once hash now later qs t d e =
    let (_, kept) = redeem-Allowed hash now t d in
    let (status, kept') =
      run-used hash qs (redeem hash now t).1 kept (redeem-marks hash now t d e) in
    redeem-used hash later (run qs (redeem hash now t).1) kept' status
