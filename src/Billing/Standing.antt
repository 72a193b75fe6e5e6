-- ===== src/Billing/Standing.antt =====
-- `Standing` of backend/src/features/billing/plan.rs: where an account stands at a given time.
pub mod Phases
use kitaza.Common.{
  ℕ, ◌+◌, ◌≤◌, ◌<◌, String, ◌≡◌, refl, Bool, true, false, Option, none, some, arith, ltb, is_some,
  unwrap_or, if◌then◌else◌,
}
use kitaza.Billing.Plan
use kitaza.Billing.Plan.{Plan, basic, pro, SubscriptionRecord, parse}

pub data Standing : Type 0 where
  unlimited : Standing
  trial : ℕ → Standing
  active grace : Plan → ℕ → Standing
  paused : ℕ → Standing

-- `if let Some(end) = limit && now < end`
abbrev pub running : Option ℕ → ℕ → Bool
running none now = false
running (some end) now = ltb now end

-- What ran out: `lapsed` in `Standing::of`.
abbrev pub lapsed : SubscriptionRecord → Plan → Option (Plan × ℕ)
lapsed s plan = elim s.paid_through [
  | some paid ↦ some (plan, paid)
  | none ↦ elim s.trial_ends_at [ some end ↦ some (pro, end) | none ↦ none ]
]

-- The part of `Standing::of` after the trial and the paid period have been ruled out.
abbrev pub after_end : Option (Plan × ℕ) → ℕ → ℕ → Standing
after_end none now grace_period = paused 0
after_end (some (plan, ended)) now grace_period =
    if ltb now (ended + grace_period)
    then grace plan (ended + grace_period)
    else paused (ended + grace_period)

-- The part of `Standing::of` for a subscription that is enforced.
abbrev pub of_record : SubscriptionRecord → ℕ → ℕ → Standing
of_record s now grace_period =
    let plan = unwrap_or (parse s.plan) basic in
    if running s.trial_ends_at now
    then trial (unwrap_or s.trial_ends_at 0)
    else if running s.paid_through now
    then active plan (unwrap_or s.paid_through 0)
    else after_end (lapsed s plan) now grace_period

-- `Standing::of`
unfoldable pub of : Option SubscriptionRecord → ℕ → ℕ → Bool → Standing
of subscription now grace_period false = unlimited
of none now grace_period true = paused 0
of (some s) now grace_period true = of_record s now grace_period

-- `Standing::plan`
unfoldable pub plan : Standing → Option Plan
plan unlimited = some pro
plan (trial _) = some pro
plan (active p _) = some p
plan (grace p _) = some p
plan (paused _) = none

unfoldable pub can_upload : Standing → Bool
unfolding plan
can_upload s = is_some (plan s)

unfoldable pub allows_staff : Standing → Bool
unfolding plan Plan.allows_staff
allows_staff s = elim (plan s) [ none ↦ false | some p ↦ Plan.allows_staff p ]

unfoldable pub store_limit : Standing → Option ℕ
unfolding plan Plan.store_limit
store_limit unlimited = none
store_limit other = some (elim (plan other) [ none ↦ 0 | some p ↦ Plan.store_limit p ])

unfoldable pub status : Standing → String
status unlimited = "unlimited"
status (trial _) = "trial"
status (active _ _) = "active"
status (grace _ _) = "grace"
status (paused _) = "paused"
