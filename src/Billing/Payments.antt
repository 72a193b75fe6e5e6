-- ===== src/Billing/Payments.antt =====
-- The payments of backend/src/features/billing/billing_repository.rs: the rows of `payments`,
-- `subscriptions` and `owners` that a confirmation reads and writes, in one transaction.
-- `provider_reference` is unique in the schema, so its updates change one row at most; the model
-- changes each row that fits, as the statement says.
pub mod Confirming
pub mod Granting
use text.Mathlib.Text.{◌==◌ as str_eq}
use kitaza.Common.{
  ℕ, ◌+◌, Bool, true, false, ◌&&◌, Option, none, some, List, [], ◌∷◌, map, arith, ◌==◌, max, String,
  is_some, unwrap_or, if◌then◌else◌,
}
use kitaza.Billing.Plan.{Plan, basic, pro, SubscriptionRecord, parse, as_str}
use kitaza.Billing.Extension.{paid_through_after}

pub data Status : Type 0 where
  pending paid : Status

pub record Payment : Type 0 where
  pub id : ℕ
  pub owner_id : ℕ
  pub plan : String
  pub months : ℕ
  pub amount : ℕ
  pub provider : String
  pub provider_reference : Option String
  pub status : Status
  pub method : Option String
  pub paid_through : Option ℕ
  pub paid_at : Option ℕ

-- `owners` gives each owner's full name.
pub record Tables : Type 0 where
  pub payments : List Payment
  pub subscriptions : ℕ → Option SubscriptionRecord
  pub owners : ℕ → Option String

-- `ConfirmedPayment`
pub record Confirmed : Type 0 where
  pub owner_id : ℕ
  pub owner_name : String
  pub plan : Plan
  pub months : ℕ
  pub amount : ℕ
  pub method : Option String
  pub paid_through : ℕ

-- `open_payment`
unfoldable pub open_payment : ℕ → ℕ → Plan → ℕ → ℕ → String → Tables → Tables
unfolding as_str
open_payment payment_id owner plan months amount_centavos provider t = record t {
  payments =
      record {
        id = payment_id;
        owner_id = owner;
        plan = as_str plan;
        months = months;
        amount = amount_centavos;
        provider = provider;
        provider_reference = none;
        status = pending;
        method = none;
        paid_through = none;
        paid_at = none;
      }
      ∷ t.payments;
}

-- `set_reference`
unfoldable pub set_reference : ℕ → String → Tables → Tables
set_reference payment_id reference t = record t {
  payments =
      map (λ p. if p.id == payment_id then record p { provider_reference = some reference } else p)
        t.payments;
}

-- `provider_reference = $1`
abbrev pub refers : String → Payment → Bool
refers reference p = elim p.provider_reference [ none ↦ false | some r ↦ str_eq r reference ]

abbrev pub is_pending : Status → Bool
is_pending pending = true
is_pending paid = false

-- The condition of the first update in `confirm`.
abbrev pub awaits : Tables → String → Payment → Bool
awaits t reference p = refers reference p && is_pending p.status && is_some (t.owners p.owner_id)

-- What the first update sets.
abbrev pub mark_paid : Option String → ℕ → Payment → Payment
mark_paid method now p = record p { status = paid; paid_at = some now; method = method }

abbrev pub update_where : (Payment → Bool) → (Payment → Payment) → List Payment → List Payment
update_where test change = map (λ p. if test p then change p else p)

-- `fetch_optional`: the first row that an update returned.
abbrev pub first_where : (Payment → Bool) → List Payment → Option Payment
first_where test [] = none
first_where test (p ∷ ps) = if test p then some p else first_where test ps

-- `INSERT INTO subscriptions … ON CONFLICT (owner_id) DO UPDATE`
abbrev pub save_subscription :
    ℕ → Plan → ℕ → (ℕ → Option SubscriptionRecord) → ℕ → Option SubscriptionRecord
save_subscription owner plan through subscriptions o =
    if o == owner
    then some (record {
      plan = as_str plan;
      trial_ends_at = elim (subscriptions owner) [ none ↦ none | some s ↦ s.trial_ends_at ];
      paid_through = some through;
    })
    else subscriptions o

module _ (add_months : ℕ → ℕ → Option ℕ) where
  -- The paid-through time that a pending payment buys.
  abbrev pub bought : Tables → Payment → ℕ → ℕ
  bought t p now =
      paid_through_after add_months (t.subscriptions p.owner_id) (unwrap_or (parse p.plan) basic)
        (max p.months 1) now

  -- The rest of `confirm`, once the first update has returned a row.
  abbrev pub settle : String → Option String → ℕ → Tables → Payment → Option Confirmed × Tables
  settle reference method now t p =
      let plan = unwrap_or (parse p.plan) basic in
      let through = bought t p now in
      (
        some (record {
          owner_id = p.owner_id;
          owner_name = unwrap_or (t.owners p.owner_id) "";
          plan = plan;
          months = max p.months 1;
          amount = p.amount;
          method = method;
          paid_through = through;
        }),
        record t {
          payments =
              update_where (refers reference) (λ q. record q { paid_through = some through })
                (update_where (awaits t reference) (mark_paid method now) t.payments);
          subscriptions = save_subscription p.owner_id plan through t.subscriptions;
        },
      )

  -- `confirm`
  unfoldable pub confirm : String → Option String → ℕ → Tables → Option Confirmed × Tables
  confirm reference method now t = elim (first_where (awaits t reference) t.payments) [
    | none ↦ (none, t)
    | some p ↦ settle reference method now t p
  ]
