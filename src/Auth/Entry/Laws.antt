-- ===== src/Auth/Entry/Laws.antt =====
-- What a failed sign-in reveals, how many guesses it allows, and what a registration records.
use Prim.Native.String.{◌++◌}
use kitaza.Common.{
  ℕ, suc, String, ◌+◌, ◌≤◌, ◌≡◌, ap, ◌∙◌, true, false, none, some, List, [], ◌∷◌, length, arith,
}
use kitaza.Common.Failure.{err, too_many_requests}
use kitaza.Common.Sort.{All}
use kitaza.Auth.Tables.{OwnerRecord}
use kitaza.Auth.Service.{AuthEnv, Draw, Server}
use kitaza.Auth.Entry.{LoginRequest, login, find_owner_by_email}
use kitaza.Auth.RateLimiter.{Redis, RateLimiter, check, key_of, exceeded}

abbrev pub email_of : AuthEnv → LoginRequest → String
email_of env request = env.to_lowercase (env.trim request.email)

module _ {S : Type 0} (env : AuthEnv) (limiter : RateLimiter S) (draw : Draw) (now : ℕ) where
  -- An e-mail without an account and a wrong password are answered alike, count alike as an attempt,
  -- and change nothing.
  pub login_reveals_nothing :
      (request : LoginRequest) (without with : Server) (owner : OwnerRecord) (s : S)
      → find_owner_by_email env (email_of env request) without.tables ≡ none
      → find_owner_by_email env (email_of env request) with.tables ≡ some owner
      → env.verify_password request.password owner.password_hash ≡ false
      → let (a, s') = login env limiter draw now request without s in
        let (b, s'') = login env limiter draw now request with s in
        (a.0 ≡ b.0) × (s' ≡ s'') × (a.1 ≡ without) × (b.1 ≡ with)
  unfolding login
  login_reveals_nothing request without with owner s unknown known wrong = ground arith

-- How Redis counts while a key does not run out: `incr` counts one up from what it had, and
-- `expire` sets a time without changing the count.
pub record CountsUp {S : Type 0} (redis : Redis S) : Type 0 where
  pub count : String → S → ℕ
  pub connected : (s : S) → redis.connected s ≡ true
  pub incr_reply : (key : String) (s : S) → (redis.incr key s).0 ≡ some (suc (count key s))
  pub incr_count : (key : String) (s : S) → count key (redis.incr key s).1 ≡ suc (count key s)
  pub expire_count :
      (key : String) (seconds : ℕ) (s : S) → count key (redis.expire key seconds s) ≡ count key s

module _ {S : Type 0} (limiter : RateLimiter S) (law : CountsUp limiter.redis)
    (bucket : String) where
  check-counts :
      (s : S)
      → law.count (key_of bucket) (check limiter bucket s).1 ≡ suc (law.count (key_of bucket) s)
  unfolding check
  check-counts s = ground (
    arith,
    law.connected s,
    law.incr_reply (key_of bucket) s,
    law.incr_count (key_of bucket) s,
    law.expire_count (key_of bucket) limiter.window_seconds
        (limiter.redis.incr (key_of bucket) s).1,
  )

  check-exceeded :
      (s : S)
      → 1 ≤ law.count (key_of bucket) s
      → limiter.limit ≤ law.count (key_of bucket) s
      → (check limiter bucket s).0 ≡ exceeded
  unfolding check
  check-exceeded s some_before many =
      ground (arith, law.connected s, law.incr_reply (key_of bucket) s)

module _ {S : Type 0} (env : AuthEnv) (limiter : RateLimiter S) (law : CountsUp limiter.redis)
    (draw : Draw) (now : ℕ) (request : LoginRequest) (owner : OwnerRecord) (srv : Server) where
  abbrev guess : String → LoginRequest
  guess password = record request { password = password }

  abbrev login_key : String
  login_key = key_of ("login:" ++ email_of env request)

  -- The counters after these passwords have been tried.
  abbrev pub after_guesses : List String → S → S
  after_guesses [] s = s
  after_guesses (p ∷ ps) s = after_guesses ps (login env limiter draw now (guess p) srv s).1

  -- A wrong password only counts as an attempt.
  wrong-checks :
      (p : String) (s : S)
      → find_owner_by_email env (email_of env request) srv.tables ≡ some owner
      → env.verify_password p owner.password_hash ≡ false
      → (login env limiter draw now (guess p) srv s).1
        ≡ (check limiter ("login:" ++ email_of env request) s).1
  unfolding login
  wrong-checks p s known wrong = ground arith

  guesses-count :
      (ps : List String) (s : S)
      → find_owner_by_email env (email_of env request) srv.tables ≡ some owner
      → All (λ p. env.verify_password p owner.password_hash ≡ false) ps
      → law.count login_key (after_guesses ps s) ≡ length ps + law.count login_key s
  guesses-count [] s known wrong = omega arith
  guesses-count (p ∷ ps) s known wrong =
      let counted =
        ap (law.count login_key) (wrong-checks p s known wrong.0)
        ∙ check-counts limiter law ("login:" ++ email_of env request) s in
      omega (
        arith,
        counted,
        guesses-count ps (login env limiter draw now (guess p) srv s).1 known wrong.1,
      )

  -- After as many wrong passwords as the limit allows, while the counter of the window runs, every
  -- password is refused, the right one too.
  pub guesses_are_limited :
      (p : String) (ps : List String) (s : S)
      → find_owner_by_email env (email_of env request) srv.tables ≡ some owner
      → All (λ q. env.verify_password q owner.password_hash ≡ false) ps
      → 1 ≤ length ps
      → limiter.limit ≤ length ps
      → (login env limiter draw now (guess p) srv (after_guesses ps s)).0
        ≡ (err too_many_requests, srv)
  unfolding login
  guesses_are_limited p ps s known wrong some_before many = ground (
    arith,
    check-exceeded limiter law ("login:" ++ email_of env request) (after_guesses ps s)
        (omega (arith, guesses-count ps s known wrong))
        (omega (arith, guesses-count ps s known wrong)),
  )
