-- ===== src/Billing/Plan.antt =====
-- The plans of backend/src/features/billing/plan.rs (`Plan`, `SubscriptionRecord`). A time is a
-- number of nanoseconds since 1970, and a duration a number of nanoseconds.
use text.Mathlib.Text.{◌==◌ as str_eq}
use kitaza.Common.{
  ℕ, ◌*◌, String, ◌≡◌, refl, Bool, true, false, Option, none, some, List, [], ◌∷◌, ◌==◌,
  if◌then◌else◌,
}

pub data Plan : Type 0 where
  basic pro : Plan

abbrev pub nanos_per_second : ℕ
nanos_per_second = 1_000_000_000

abbrev pub nanos_per_day : ℕ
nanos_per_day = 86_400 * nanos_per_second

abbrev pub year_priced_as_months : ℕ
year_priced_as_months = 10

unfoldable pub monthly_centavos : Plan → ℕ
monthly_centavos basic = 9_900
monthly_centavos pro = 19_900

unfoldable pub price_centavos : Plan → ℕ → ℕ
unfolding monthly_centavos
price_centavos plan months =
    monthly_centavos plan * (if months == 12 then year_priced_as_months else months)

unfoldable pub store_limit : Plan → ℕ
store_limit basic = 1
store_limit pro = 5

unfoldable pub allows_staff : Plan → Bool
allows_staff basic = false
allows_staff pro = true

unfoldable pub as_str : Plan → String
as_str basic = "basic"
as_str pro = "pro"

unfoldable pub parse : String → Option Plan
parse raw = if str_eq raw "basic" then some basic else if str_eq raw "pro" then some pro else none

unfoldable pub label : Plan → String
label basic = "Kitaza Basic"
label pro = "Kitaza Pro"

-- `OFFERED_MONTHS`
abbrev pub offered_months : List ℕ
offered_months = 1 ∷ 12 ∷ []

pub record SubscriptionRecord : Type 0 where
  pub plan : String
  pub trial_ends_at : Option ℕ
  pub paid_through : Option ℕ

pub parse-as_str : (plan : Plan) → parse (as_str plan) ≡ some plan
unfolding parse as_str
parse-as_str basic = refl
parse-as_str pro = refl
