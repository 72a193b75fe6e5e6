-- ===== src/Common/Failure.antt =====
-- `ApiError` and `ApiResult` of backend/src/shared/api_error.rs. An internal error carries its
-- cause, which only the log sees.
use Prim.Native.Nat.{ℕ}
use Prim.Native.String.{String, ◌++◌}
use mathlib.Core.Option.{Option, none, some}
use mathlib.Core.Path.{◌≡◌, refl, ap}
use mathlib.Core.Logic.{◌⊎◌, inl, inr}

pub data ApiError : Type 0 where
  bad_request unauthorized forbidden not_found conflict : String → ApiError
  too_many_requests : ApiError
  subscription_required upgrade_required internal : String → ApiError

pub data ApiResult {ℓ} (A : Type ℓ) : Type ℓ where
  ok : A → ApiResult A
  err : ApiError → ApiResult A

infixl 5 ◌>>=◌ ◌>>◌
abbrev pub ◌>>=◌ {ℓ κ} : {A : Type ℓ} {B : Type κ} → ApiResult A → (A → ApiResult B) → ApiResult B
ok a >>= f = f a
err e >>= _ = err e

abbrev pub ◌>>◌ {ℓ} : {B : Type ℓ} → ApiResult (Unit {0}) → ApiResult B → ApiResult B
m >> k = m >>= λ _. k

-- `Option::ok_or`
abbrev pub ok_or {ℓ} : {A : Type ℓ} → Option A → ApiError → ApiResult A
ok_or none e = err e
ok_or (some a) _ = ok a

-- `ApiError::status`
unfoldable pub status : ApiError → ℕ
status (bad_request _) = 400
status (unauthorized _) = 401
status (forbidden _) = 403
status (not_found _) = 404
status (conflict _) = 409
status too_many_requests = 429
status (subscription_required _) = 402
status (upgrade_required _) = 402
status (internal _) = 500

-- `ApiError::code`
unfoldable pub code : ApiError → String
code (bad_request _) = "bad_request"
code (unauthorized _) = "unauthorized"
code (forbidden _) = "forbidden"
code (not_found _) = "not_found"
code (conflict _) = "conflict"
code too_many_requests = "too_many_requests"
code (subscription_required _) = "subscription_required"
code (upgrade_required _) = "upgrade_required"
code (internal _) = "internal_error"

-- `Display`, from the `#[error(...)]` attributes.
unfoldable pub to_string : ApiError → String
to_string (bad_request m) = m
to_string (unauthorized m) = m
to_string (forbidden m) = m
to_string (not_found m) = m ++ " not found"
to_string (conflict m) = m
to_string too_many_requests = "too many attempts, please try again later"
to_string (subscription_required m) = m
to_string (upgrade_required m) = m
to_string (internal m) = m

-- The body's `message` in `into_response`.
unfoldable pub public_message : ApiError → String
unfolding to_string
public_message (internal _) = "Something went wrong on our side. Please try again."
public_message other = to_string other

-- What a chain that succeeds went through.
pub bind-ok {ℓ κ} :
    {A : Type ℓ} {B : Type κ} (m : ApiResult A) (f : A → ApiResult B) (b : B)
    → (m >>= f) ≡ ok b
    → (a : A) × (m ≡ ok a) × (f a ≡ ok b)
bind-ok (ok a) f b e = (a, refl, e)
bind-ok (err x) f b e = absurd cc

pub ok-injective {ℓ} : {A : Type ℓ} (a b : A) → ok a ≡ ok b → a ≡ b
ok-injective a b e = ap (λ r. elim r [ ok x ↦ x | err _ ↦ a ]) e

pub ok-cases {ℓ} :
    {A : Type ℓ} (r : ApiResult A) → ((a : A) × (r ≡ ok a)) ⊎ ((e : ApiError) × (r ≡ err e))
ok-cases (ok a) = inl (a, refl)
ok-cases (err e) = inr (e, refl)
