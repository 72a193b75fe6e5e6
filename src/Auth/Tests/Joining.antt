-- ===== src/Auth/Tests/Joining.antt =====
-- Concrete runs of join codes and of signing in with a password.
use kitaza.Common.{
  ℕ, String, ◌+◌, ◌≡◌, refl, true, false, none, some, List, [], ◌∷◌, map, take, arith, suc,
}
use kitaza.Common.Failure.{ok, err, too_many_requests}
use kitaza.Billing.Gate.{check_staff}
use kitaza.Billing.Standing.{of}
use kitaza.Auth.Tables.{AccountTables}
use kitaza.Auth.Staff.{redeem, replace_invite, find_member}
use kitaza.Auth.JoinCode.{Text, generate, normalise, drawn_letter, code_length}
use kitaza.Auth.JoinCode.Laws.{TypedAs, done, lower, stray, skipped, normalise-generate}
use kitaza.Auth.Service.{Draw, Server}
use kitaza.Auth.Staffing.{reinvite, new_invite, fingerprint, InviteView, invite_lifetime}
use kitaza.Auth.History.{touches, redeems, run, step}
use kitaza.Auth.Codes.{Allowed, codes, IsDistinct}
use kitaza.Auth.Codes.Refinement.{gives}
use kitaza.Auth.Codes.OnceOnly.{step-Allowed, redeem_once}
use kitaza.Auth.Codes.Sharing.{reinvited_can_join}
use kitaza.Auth.Entry.{LoginRequest, login, JoinRequest, join, device_name}
use kitaza.Auth.Devices.{opened}
use kitaza.Auth.Entry.Laws.{guesses_are_limited, CountsUp, after_guesses}
use kitaza.Auth.RateLimiter.{Redis, RateLimiter}
use kitaza.Auth.Tests.{helper, corner_shop, env, srv, tables, owner, nena}

abbrev letters : List ℕ
letters = 0 ∷ 8 ∷ []

-- "aj" for "AJ", the shared code of two letters without its dash.
abbrev typed : Text
typed = 97 ∷ 32 ∷ 106 ∷ []

typed_lem : TypedAs typed (65 ∷ 74 ∷ 45 ∷ [])
typed_lem =
    lower 65 (omega arith) (omega arith)
      (stray 32 refl (lower 74 (omega arith) (omega arith) (skipped 45 refl done)))

generate_lem : generate letters ≡ 65 ∷ 74 ∷ 45 ∷ []
unfolding generate
generate_lem = refl

typed_generate_lem : TypedAs typed (generate letters)
unfolding generate
typed_generate_lem = typed_lem

normalise-generate_example : normalise typed ≡ map drawn_letter (take code_length letters)
normalise-generate_example = normalise-generate letters typed typed_generate_lem

-- The helper has been sent a code with the hash 77, which has not been used.
abbrev invited : AccountTables
invited = record tables {
  invites = record { staff_id = 5; code_hash = 77; expires_at = 900; redeemed_at = none } ∷ [];
}

step-Allowed_example :
    Allowed 100 (codes invited) (codes (step 100 (redeems 77) invited))
    × IsDistinct (step 100 (redeems 77) invited).invites
step-Allowed_example = step-Allowed 100 (redeems 77) invited (refl, tt)

redeemed_lem : gives (redeem 77 100 invited).0 ≡ true
unfolding redeem
redeemed_lem = refl

redeem_once_example :
    redeem 77 200 (run ((150, touches 10) ∷ []) (redeem 77 100 invited).1)
    ≡ (ok none, run ((150, touches 10) ∷ []) (redeem 77 100 invited).1)
redeem_once_example =
    redeem_once 77 100 200 ((150, touches 10) ∷ []) invited (refl, tt) redeemed_lem

abbrev inviting : Server
inviting = record srv { tables = invited }

abbrev view : InviteView
view = record { code = 65 ∷ 74 ∷ 45 ∷ []; expires_at = 100 + invite_lifetime }

reinvited_lem : (reinvite env 0 false letters 2 owner 100 5 inviting).0 ≡ ok view
unfolding reinvite check_staff find_member new_invite generate fingerprint replace_invite normalise
    of
reinvited_lem = refl

abbrev draw : Draw
draw = record { session = 20; refresh_token = "next" }

abbrev joining : JoinRequest
joining = record { code = typed; device_tag = none; device_name = none }

plan_lem : check_staff 0 200 false env.show (invited.subscriptions 1) ≡ ok tt
unfolding check_staff of
plan_lem = refl

reinvited_can_join_example :
    let asked = (reinvite env 0 false letters 2 owner 100 5 inviting).1 in
    (join env 0 false draw 200 joining asked).0.1.tables.sessions 20
    ≡ some (opened 1 (some 5) (device_name env none none) 200)
reinvited_can_join_example =
    reinvited_can_join env 0 false letters 2 owner 100 5 inviting view reinvited_lem draw joining
      200 helper corner_shop refl refl refl plan_lem refl typed_lem (omega arith)

-- A Redis with one counter, which every key shares.
abbrev redis : Redis ℕ
redis = record {
  connected = λ _. true;
  incr = λ _ n. (some (suc n), suc n);
  expire = λ _ _ n. n;
  del = λ _ _. 0;
}

abbrev limiter : RateLimiter ℕ
limiter = record { redis = redis; limit = 2; window_seconds = 60 }

redis-CountsUp : CountsUp redis
redis-CountsUp = record {
  count = λ _ n. n;
  connected = λ _. refl;
  incr_reply = λ _ _. refl;
  incr_count = λ _ _. refl;
  expire_count = λ _ _ _. refl;
}

abbrev request : LoginRequest
request = record { email = "nena"; password = "guess"; device_tag = none; device_name = none }

abbrev guesses : List String
guesses = "guess" ∷ "again" ∷ []

guesses_are_limited_example :
    (login env limiter draw 100
      (record request { password = "secret" })
      srv
      (after_guesses env limiter redis-CountsUp draw 100 request nena srv guesses 0)).0
    ≡ (err too_many_requests, srv)
guesses_are_limited_example =
    guesses_are_limited env limiter redis-CountsUp draw 100 request nena srv "secret" guesses 0 refl
      (refl, (refl, tt)) (omega arith) (omega arith)
