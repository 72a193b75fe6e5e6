-- ===== src/Billing/Payments/Granting.antt =====
-- What a confirmed payment buys, as the standing of the account shows it.
use kitaza.Common.{
  ℕ, ◌+◌, ◌*◌, ◌≤◌, ◌<◌, ◌≡◌, true, Option, some, arith, String, Option-cases, inl, inr,
  if◌then◌else◌, max, unwrap_or,
}
use kitaza.Billing.Plan.{Plan, basic, pro, parse, as_str, parse-as_str, nanos_per_day}
use kitaza.Billing.Standing.{running, of, plan}
use kitaza.Billing.Extension.Laws.{
  AddsMonths, paid_through_after-ge_start, trial_of, start_after-ge_now, start_after-ge_trial_of,
}
use kitaza.Billing.Payments.{Tables, Confirmed, awaits, first_where, confirm}

-- A subscription that names a plan by its text is on that plan once its trial is over.
plan-of_paid :
    (p : Plan) (trial : Option ℕ) (through time grace_period : ℕ)
    → time < through
    → plan (
        of
          (some (record { plan = as_str p; trial_ends_at = trial; paid_through = some through }))
          time
          grace_period
          true)
      ≡ some (if running trial time then pro else p)
unfolding plan of
plan-of_paid p trial through time grace_period h = ground (arith, parse-as_str p)

module _ (add_months : ℕ → ℕ → Option ℕ) where
  -- What a confirmation that reports `c` wrote for the owner.
  pub subscription-confirm :
      (reference : String) (method : Option String) (now : ℕ) (t : Tables) (c : Confirmed)
      → (confirm add_months reference method now t).0 ≡ some c
      → (confirm add_months reference method now t).1.subscriptions c.owner_id
        ≡ some (record {
          plan = as_str c.plan;
          trial_ends_at = trial_of (t.subscriptions c.owner_id);
          paid_through = some c.paid_through;
        })
  unfolding confirm
  subscription-confirm reference method now t c e = ground arith

  -- Until the time that a confirmation reports, the owner has Pro while their trial runs and the
  -- plan they paid for after it.
  pub plan-confirm :
      (reference : String) (method : Option String) (now : ℕ) (t : Tables) (c : Confirmed)
      (time grace_period : ℕ)
      → (confirm add_months reference method now t).0 ≡ some c
      → time < c.paid_through
      → plan (
          of
            ((confirm add_months reference method now t).1.subscriptions c.owner_id)
            time
            grace_period
            true)
        ≡ some (if running (trial_of (t.subscriptions c.owner_id)) time then pro else c.plan)
  plan-confirm reference method now t c time grace_period e h =
      rw (subscription-confirm reference method now t c e) (
        plan-of_paid c.plan (trial_of (t.subscriptions c.owner_id)) c.paid_through time grace_period
          h)

module _ (add_months : ℕ → ℕ → Option ℕ) (adds : AddsMonths add_months) where
  -- A confirmed payment carries the owner at least 28 days past the present and past the end of
  -- their trial, and at least 28 days for each month that it reports.
  pub confirm-extends :
      (reference : String) (method : Option String) (now : ℕ) (t : Tables) (c : Confirmed)
      → (confirm add_months reference method now t).0 ≡ some c
      → (now + 28 * nanos_per_day * c.months ≤ c.paid_through)
        × (unwrap_or (trial_of (t.subscriptions c.owner_id)) 0 + 28 * nanos_per_day * c.months
            ≤ c.paid_through)
        × (1 ≤ c.months)
  unfolding confirm
  confirm-extends reference method now t c e =
      elim (Option-cases (first_where (awaits t reference) t.payments)) [
        | inl none_waits ↦ ground arith
        | inr (p, waits) ↦ ground (
          arith,
          paid_through_after-ge_start add_months adds (t.subscriptions p.owner_id)
              (unwrap_or (parse p.plan) basic) (max p.months 1) now,
          start_after-ge_now (t.subscriptions p.owner_id) (unwrap_or (parse p.plan) basic) now,
          start_after-ge_trial_of (t.subscriptions p.owner_id) (unwrap_or (parse p.plan) basic) now,
        )
      ]
