-- ===== src/Billing/Extension.antt =====
-- `paid_through_after` of backend/src/features/billing/plan.rs: how far a payment carries a
-- subscription. `add_months` stands for chrono's `checked_add_months`, which gives the same day of
-- a later month, or the last day of that month, or nothing where a date cannot be represented.
pub mod Laws
use kitaza.Common.{
  ℕ, ◌+◌, ◌-◌, ◌*◌, ◌/◌, ◌≤◌, ◌≡◌, Bool, true, false, Option, none, some, arith, ltb, max,
  unwrap_or, if◌then◌else◌,
}
use kitaza.Billing.Plan.{
  Plan, basic, pro, SubscriptionRecord, parse, monthly_centavos, nanos_per_second, nanos_per_day,
}

-- The derived `PartialEq` of `Plan`.
abbrev pub eqb : Plan → Plan → Bool
eqb basic basic = true
eqb pro pro = true
eqb _ _ = false

-- Time left on the plan `old`, as time on the plan `new`.
unfoldable pub converted : Plan → Plan → ℕ → ℕ
unfolding monthly_centavos
converted old new remaining =
    if eqb old new
    then remaining
    else remaining
      / nanos_per_second
      * monthly_centavos old
      / monthly_centavos new
      * nanos_per_second

-- When paid time can start: `paid_from`.
abbrev pub paid_from : SubscriptionRecord → ℕ → ℕ
paid_from current now = elim current.trial_ends_at [ none ↦ now | some trial ↦ max trial now ]

-- `start`, when the new months begin.
unfoldable pub start_after : Option SubscriptionRecord → Plan → ℕ → ℕ
start_after none plan now = now
start_after (some current) plan now = elim current.paid_through [
  | none ↦ paid_from current now
  | some paid ↦
      if ltb (paid_from current now) paid
      then paid_from current now
        + converted (unwrap_or (parse current.plan) plan) plan (paid - paid_from current now)
      else paid_from current now
]

module _ (add_months : ℕ → ℕ → Option ℕ) where
  unfoldable pub paid_through_after : Option SubscriptionRecord → Plan → ℕ → ℕ → ℕ
  unfolding start_after
  paid_through_after current plan months now =
      unwrap_or (add_months (start_after current plan now) months)
        (start_after current plan now + 30 * nanos_per_day * months)
