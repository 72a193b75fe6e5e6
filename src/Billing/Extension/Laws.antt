-- ===== src/Billing/Extension/Laws.antt =====
-- Nothing that an owner has bought or been promised is lost by a payment.
use kitaza.Common.{
  ℕ, ◌+◌, ◌*◌, ◌/◌, ◌≤◌, ◌<◌, ◌≡◌, ◌≢◌, refl, Option, none, some, arith, unwrap_or, Option-cases,
  inl, inr,
}
use kitaza.Billing.Plan.{
  Plan, basic, pro, SubscriptionRecord, parse, monthly_centavos, nanos_per_second, nanos_per_day,
}
use kitaza.Billing.Extension.{converted, start_after, paid_through_after}

-- A calendar month has at least 28 days.
abbrev pub AddsMonths : (ℕ → ℕ → Option ℕ) → Type 0
AddsMonths add_months = (t m u : ℕ) → add_months t m ≡ some u → t + 28 * nanos_per_day * m ≤ u

pub start_after-ge_now :
    (current : Option SubscriptionRecord) (plan : Plan) (now : ℕ)
    → now ≤ start_after current plan now
unfolding start_after
start_after-ge_now none plan now = omega arith
start_after-ge_now (some c) plan now = ground arith

-- The trial that an owner's row records.
abbrev pub trial_of : Option SubscriptionRecord → Option ℕ
trial_of none = none
trial_of (some s) = s.trial_ends_at

pub start_after-ge_trial :
    (c : SubscriptionRecord) (plan : Plan) (now : ℕ)
    → unwrap_or c.trial_ends_at 0 ≤ start_after (some c) plan now
unfolding start_after
start_after-ge_trial c plan now = ground arith

pub start_after-ge_trial_of :
    (current : Option SubscriptionRecord) (plan : Plan) (now : ℕ)
    → unwrap_or (trial_of current) 0 ≤ start_after current plan now
start_after-ge_trial_of none plan now = omega arith
start_after-ge_trial_of (some c) plan now = start_after-ge_trial c plan now

pub start_after-ge_paid :
    (c : SubscriptionRecord) (plan : Plan) (now : ℕ)
    → parse c.plan ≡ some plan
    → unwrap_or c.paid_through 0 ≤ start_after (some c) plan now
unfolding start_after converted
start_after-ge_paid c basic now h = ground arith
start_after-ge_paid c pro now h = ground arith

-- Time left on another plan is converted at the price ratio, rounded down to a second: what is
-- credited is worth at most the time left at the old price, and falls short by less than a second
-- at the new price.
pub converted_value :
    (old new : Plan) (remaining : ℕ)
    → old ≢ new
    → let seconds = converted old new remaining / nanos_per_second in
      let left = remaining / nanos_per_second in
      (seconds * monthly_centavos new ≤ left * monthly_centavos old)
      × (left * monthly_centavos old < (seconds + 1) * monthly_centavos new)
unfolding converted
converted_value basic basic remaining h = absurd (h refl)
converted_value basic pro remaining h = omega arith
converted_value pro basic remaining h = omega arith
converted_value pro pro remaining h = absurd (h refl)

module _ (add_months : ℕ → ℕ → Option ℕ) (adds : AddsMonths add_months) where
  pub paid_through_after-ge_start :
      (current : Option SubscriptionRecord) (plan : Plan) (months now : ℕ)
      → start_after current plan now + 28 * nanos_per_day * months
        ≤ paid_through_after add_months current plan months now
  unfolding paid_through_after
  paid_through_after-ge_start current plan months now =
      elim (Option-cases (add_months (start_after current plan now) months)) [
        | inl e ↦ rw e (omega arith)
        | inr (u, e) ↦ rw e (adds _ _ _ e)
      ]

  -- A payment for the plan already recorded adds at least 28 days a month on top of everything
  -- bought or promised: the present, the end of the trial, and the end of the paid period.
  pub paid_through_after_keeps :
      (c : SubscriptionRecord) (plan : Plan) (months now : ℕ)
      → parse c.plan ≡ some plan
      → let bought = 28 * nanos_per_day * months in
        let through = paid_through_after add_months (some c) plan months now in
        (now + bought ≤ through)
        × (unwrap_or c.trial_ends_at 0 + bought ≤ through)
        × (unwrap_or c.paid_through 0 + bought ≤ through)
  paid_through_after_keeps c plan months now same = (
    omega (
      arith,
      paid_through_after-ge_start (some c) plan months now,
      start_after-ge_now (some c) plan now,
    ),
    omega (
      arith,
      paid_through_after-ge_start (some c) plan months now,
      start_after-ge_trial c plan now,
    ),
    omega (
      arith,
      paid_through_after-ge_start (some c) plan months now,
      start_after-ge_paid c plan now same,
    ),
  )
