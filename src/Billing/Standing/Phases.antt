-- ===== src/Billing/Standing/Phases.antt =====
-- How the standing of an account moves as time passes, with its subscription left alone.
use kitaza.Common.{
  ℕ, ◌+◌, ◌≤◌, ◌<◌, ◌≡◌, Bool, true, false, Option, none, some, arith, ltb, max, unwrap_or,
}
use kitaza.Billing.Plan.{pro, SubscriptionRecord}
use kitaza.Billing.Standing.{
  Standing, unlimited, trial, active, grace, paused, of, plan, can_upload,
}

-- The end of the trial or of the grace, whichever is last. The grace follows the paid period where
-- there is one, even if the trial ends after it; else it follows the trial.
abbrev pub covered_until : SubscriptionRecord → ℕ → ℕ
covered_until s grace_period = max (unwrap_or s.trial_ends_at 0) (elim s.paid_through [
  | some paid ↦ paid + grace_period
  | none ↦ elim s.trial_ends_at [ some end ↦ end + grace_period | none ↦ 0 ]
])

-- Uploads of an account, where paying is enforced, go through exactly until the later of two times:
-- the end of its trial, and the end of the grace after the paid period or, where nothing was ever
-- paid, after the trial. A trial that ends after the paid period has no grace of its own.
pub can_upload-of :
    (s : SubscriptionRecord) (now grace_period : ℕ)
    → can_upload (of (some s) now grace_period true) ≡ ltb now (covered_until s grace_period)
unfolding can_upload of
can_upload-of s now grace_period = ground arith

-- The order in which an account passes through the standings.
abbrev pub phase : Standing → ℕ
phase unlimited = 0
phase (trial _) = 1
phase (active _ _) = 2
phase (grace _ _) = 3
phase (paused _) = 4

-- Without a payment an account only moves forward.
pub phase_mono :
    (subscription : Option SubscriptionRecord) (now later grace_period : ℕ) (enforced : Bool)
    → now ≤ later
    → phase (of subscription now grace_period enforced)
      ≤ phase (of subscription later grace_period enforced)
unfolding of
phase_mono subscription now later grace_period false h = omega arith
phase_mono none now later grace_period true h = omega arith
phase_mono (some s) now later grace_period true h = ground arith

-- A trial is Pro for its whole length, whatever the recorded plan and payments are.
pub plan-of_trial :
    (s : SubscriptionRecord) (end now grace_period : ℕ)
    → s.trial_ends_at ≡ some end
    → now < end
    → plan (of (some s) now grace_period true) ≡ some pro
unfolding plan of
plan-of_trial s end now grace_period e h = ground arith
