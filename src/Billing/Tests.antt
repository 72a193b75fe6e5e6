-- ===== src/Billing/Tests.antt =====
-- Concrete runs of the billing code.
use kitaza.Common.{
  if◌then◌else◌, ℕ, ◌+◌, ◌*◌, ◌≤◌, ◌≡◌, refl, true, Option, none, some, [], ◌∷◌, arith, ltb,
  unwrap_or,
}
use kitaza.Common.Failure.{ok, err, too_many_requests}
use kitaza.Common.Sort.{sort}
use kitaza.Access.Actor.{Actor, is_owner}
use kitaza.Billing.Gate.{Store, check_new_store, is_within_first}
use kitaza.Billing.Gate.Laws.{is_within_first_mono}
use kitaza.Billing.Plan.{basic, pro, SubscriptionRecord, parse, monthly_centavos, nanos_per_day}
use kitaza.Billing.Standing.{of, can_upload, plan, running}
use kitaza.Billing.Standing.Phases.{covered_until, can_upload-of}
use kitaza.Billing.Extension.{converted, start_after, paid_through_after}
use kitaza.Billing.Extension.Laws.{AddsMonths, trial_of}
use kitaza.Billing.Payments.{Payment, Tables, Confirmed, pending, confirm}
use kitaza.Billing.Checkout.{GatewayEnv, paymongo, paymongo_webhook}
use kitaza.Billing.Checkout.Laws.{webhook_again}
use kitaza.Billing.Payments.Granting.{plan-confirm, confirm-extends}

-- A calendar whose months all have thirty days.
abbrev thirty_days : ℕ → ℕ → Option ℕ
thirty_days t m = some (t + 30 * nanos_per_day * m)

thirty_days-AddsMonths : AddsMonths thirty_days
thirty_days-AddsMonths t m u e = ground arith

-- An owner on trial who paid for Basic.
abbrev owner_row : SubscriptionRecord
owner_row = record { plan = "basic"; trial_ends_at = some 500; paid_through = some 2_000 }

abbrev waiting : Payment
waiting = record {
  id = 1;
  owner_id = 7;
  plan = "pro";
  months = 0;
  amount = 19_900;
  provider = "paymongo";
  provider_reference = some "cs_1";
  status = pending;
  method = none;
  paid_through = none;
  paid_at = none;
}

abbrev tables : Tables
tables = record {
  payments = waiting ∷ [];
  subscriptions = λ o. some owner_row;
  owners = λ o. some "Aling Nena";
}

can_upload-of_example :
    can_upload (of (some owner_row) 2_050 100 true) ≡ ltb 2_050 (covered_until owner_row 100)
can_upload-of_example = can_upload-of owner_row 2_050 100

owner_row_lem : parse owner_row.plan ≡ some basic
unfolding parse
owner_row_lem = refl

-- A gateway whose messages all report that the checkout cs_1 was paid.
abbrev gateway_env : GatewayEnv
gateway_env = record {
  uuid_text = λ _. "";
  fields = λ _. ("t", "1") ∷ ("li", "aa") ∷ [];
  decode = λ _. some [];
  verify_slice = λ _ _ _ _. true;
  parse_event = λ _. some (record {
    event_type = some "checkout_session.payment.paid";
    reference = some "cs_1";
    method = some "gcash";
  });
  post_checkout = λ _. err too_many_requests;
}

webhook_again_example :
    let (answer, t', _) =
      paymongo_webhook gateway_env thirty_days
        (λ _. [])
        (some (paymongo "secret"))
        ""
        ""
        900
        tables in
    paymongo_webhook gateway_env thirty_days (λ _. []) (some (paymongo "secret")) "" "" 950 t'
    ≡ (answer, t', [])
webhook_again_example =
    webhook_again gateway_env thirty_days (λ _. []) (some (paymongo "secret")) "" "" 900 950 tables

abbrev confirmed : Confirmed
confirmed = record {
  owner_id = 7;
  owner_name = "Aling Nena";
  plan = pro;
  months = 1;
  amount = 19_900;
  method = some "gcash";
  paid_through = 900 + 30 * nanos_per_day;
}

confirmed_lem : (confirm thirty_days "cs_1" (some "gcash") 900 tables).0 ≡ some confirmed
unfolding confirm paid_through_after converted monthly_centavos start_after parse
confirmed_lem = refl

plan-confirm_example :
    plan
      (of ((confirm thirty_days "cs_1" (some "gcash") 900 tables).1.subscriptions 7) 1_000 100 true)
    ≡ some (if running (trial_of (tables.subscriptions 7)) 1_000 then pro else pro)
plan-confirm_example =
    plan-confirm thirty_days "cs_1" (some "gcash") 900 tables confirmed 1_000 100 confirmed_lem
      (omega arith)

confirm-extends_example :
    (900 + 28 * nanos_per_day * 1 ≤ confirmed.paid_through)
    × (unwrap_or (trial_of (tables.subscriptions 7)) 0 + 28 * nanos_per_day * 1
        ≤ confirmed.paid_through)
    × (1 ≤ 1)
confirm-extends_example =
    confirm-extends thirty_days thirty_days-AddsMonths "cs_1" (some "gcash") 900 tables confirmed
      confirmed_lem

abbrev first_store : Store
first_store = record { id = 21; owner_id = 7; created_at = 5 }

abbrev branch : Store
branch = record { id = 22; owner_id = 7; created_at = 6 }

abbrev seller : Actor
seller = record {
  owner_id = 7;
  session_id = 2;
  name = "Aling Nena";
  device_name = "phone";
  staff = none;
  subscription = some owner_row;
}

-- On trial, so with the limit of Pro.
may_open : check_new_store 100 400 true (λ n. "five") (first_store ∷ []) seller ≡ ok tt
unfolding check_new_store of plan
may_open = refl

seller_owns : is_owner seller ≡ true
unfolding is_owner
seller_owns = refl

older_within : is_within_first (branch ∷ first_store ∷ []) 7 21 1 ≡ true
unfolding is_within_first sort
older_within = refl

is_within_first_mono_example : is_within_first (branch ∷ first_store ∷ []) 7 21 5 ≡ true
is_within_first_mono_example =
    is_within_first_mono (branch ∷ first_store ∷ []) 7 21 1 5 (omega arith) older_within
