-- ===== src/Billing/Checkout.antt =====
-- `PaymentGateway` of backend/src/features/billing/payment_gateway.rs, and `checkout`, `confirm`,
-- `paymongo_webhook` and `pay_test_checkout` of billing_service.rs. The gateway's HTTP call, JSON,
-- hexadecimal digits and the message code are parameters. The stores of an owner are a function.
pub mod Laws
use text.Mathlib.Text.{◌==◌ as str_eq}
use Prim.Native.String.{◌++◌}
use kitaza.Common.{
  ℕ, String, Bool, true, false, ◌&&◌, ◌||◌, not, Option, none, some, List, [], ◌∷◌, map, any, find,
  ◌==◌, if◌then◌else◌, is_some,
}
use kitaza.Common.Failure.{ApiResult, ok, err, unauthorized, bad_request, not_found}
use kitaza.Billing.Plan.{Plan, price_centavos, offered_months, label}
use kitaza.Billing.Payments.{
  Tables, Payment, Confirmed, open_payment, set_reference, confirm, is_pending,
}
use kitaza.Services.Request.{Effect, audit, publish}
use kitaza.Services.Request

pub record CheckoutRequest : Type 0 where
  pub payment_id : ℕ
  pub plan : Plan
  pub months : ℕ
  pub amount_centavos : ℕ

pub record Checkout : Type 0 where
  pub reference : String
  pub url : String

pub record PaidCheckout : Type 0 where
  pub reference : String
  pub method : Option String

-- A webhook's JSON body, by the three fields that are read.
pub record PaidEvent : Type 0 where
  pub event_type : Option String
  pub reference : Option String
  pub method : Option String

-- What the libraries give. `fields` splits a header at its commas and each part at its first `=`;
-- `verify_slice secret timestamp body digits` is the comparison of the message code.
pub record GatewayEnv : Type 0 where
  pub uuid_text : ℕ → String
  pub fields : String → List (String × String)
  pub decode : String → Option (List ℕ)
  pub verify_slice : String → String → String → List ℕ → Bool
  pub parse_event : String → Option PaidEvent
  pub post_checkout : CheckoutRequest → ApiResult Checkout

pub data PaymentGateway : Type 0 where
  test : String → PaymentGateway
  paymongo : String → PaymentGateway

pub record CheckoutView : Type 0 where
  pub payment_id : ℕ
  pub checkout_url : String
  pub amount_centavos : ℕ

module _ (env : GatewayEnv) where
  -- `field` of `verify_signature`
  abbrev pub field : String → String → Option String
  field header name = elim (find (λ f. str_eq f.0 name) (env.fields header)) [
    | none ↦ none
    | some (_, value) ↦ if str_eq value "" then none else some value
  ]

  abbrev pub first_of : Option String → Option String → Option String
  first_of none other = other
  first_of (some value) _ = some value

  -- `verify_signature`
  unfoldable pub verify_signature : String → String → String → ApiResult (Unit {0})
  verify_signature secret header body =
      let refused = err (unauthorized "webhook signature does not match") in
      elim (field header "t") [
        | none ↦ refused
        | some timestamp ↦ elim (first_of (field header "li") (field header "te")) [
          | none ↦ refused
          | some expected ↦ elim (env.decode expected) [
            | none ↦ refused
            | some digits ↦ if env.verify_slice secret timestamp body digits then ok tt else refused
          ]
        ]
      ]

  -- The event's type is that of a paid checkout.
  abbrev pub is_paid_event : Option String → Bool
  is_paid_event none = false
  is_paid_event (some name) = str_eq name "checkout_session.payment.paid"

  -- `verify_webhook`
  unfoldable pub verify_webhook : String → String → String → ApiResult (Option PaidCheckout)
  unfolding verify_signature
  verify_webhook secret header body = elim (verify_signature secret header body) [
    | err e ↦ err e
    | ok _ ↦ elim (env.parse_event body) [
      | none ↦ err (bad_request "webhook body is not JSON")
      | some event ↦
          if not (is_paid_event event.event_type) then ok none else elim event.reference [
            | none ↦ err (bad_request "paid event names no checkout")
            | some reference ↦ ok (some (record { reference = reference; method = event.method }))
          ]
    ]
  ]

  -- `create_checkout`
  unfoldable pub create_checkout : PaymentGateway → CheckoutRequest → ApiResult Checkout
  create_checkout (test public_url) request = ok (record {
    reference = "test_" ++ env.uuid_text request.payment_id;
    url = public_url ++ ("/billing/test-checkout/" ++ env.uuid_text request.payment_id);
  })
  create_checkout (paymongo secret) request = env.post_checkout request

  abbrev pub provider_of : PaymentGateway → String
  provider_of (test _) = "test"
  provider_of (paymongo _) = "paymongo"

  -- `BillingService::checkout`, with the id that it draws for the payment.
  unfoldable pub checkout :
      Option PaymentGateway → ℕ → ℕ → Plan → ℕ → Tables → ApiResult CheckoutView × Tables
  unfolding price_centavos open_payment create_checkout set_reference
  checkout gateway payment owner plan months t = elim gateway [
    | none ↦ (err (bad_request "this server does not take payments"), t)
    | some g ↦
        if not (any (λ m. m == months) offered_months)
        then (err (bad_request "months must be 1 or 12"), t)
        else let amount = price_centavos plan months in
          let opened = open_payment payment owner plan months amount (provider_of g) t in
          let request : CheckoutRequest = record {
            payment_id = payment;
            plan = plan;
            months = months;
            amount_centavos = amount;
          } in
          elim (create_checkout g request) [
            | err e ↦ (err e, opened)
            | ok made ↦ (
              ok (record {
                payment_id = payment;
                checkout_url = made.url;
                amount_centavos = amount;
              }),
              set_reference payment made.reference opened,
            )
          ]
  ]

  -- `pending_reference`
  unfoldable pub pending_reference : ℕ → Tables → Option String
  pending_reference payment t =
      elim (find (λ p. (p.id == payment) && is_pending p.status && is_some p.provider_reference)
        t.payments) [ none ↦ none | some p ↦ p.provider_reference ]

  module _ (add_months : ℕ → ℕ → Option ℕ) (store_ids : ℕ → List ℕ) where
    -- `BillingService::confirm`. The sessions of the instance are forgotten with the first effect.
    unfoldable pub confirm_paid :
        PaidCheckout → ℕ → Tables → ApiResult (Unit {0}) × Tables × List Effect
    unfolding confirm
    confirm_paid paid now t =
        let (confirmed, t') = confirm add_months paid.reference paid.method now t in
        elim confirmed [
          | none ↦ (ok tt, t', [])
          | some c ↦ (
            ok tt,
            t',
            audit Request.AuditAction.subscription_paid c.owner_id
                ∷ map (λ _. publish Request.RealtimeTopic.access_changed none)
                    (store_ids c.owner_id),
          )
        ]

    -- `BillingService::paymongo_webhook`
    unfoldable pub paymongo_webhook :
        Option PaymentGateway
        → String
        → String
        → ℕ
        → Tables
        → ApiResult (Unit {0}) × Tables × List Effect
    unfolding verify_webhook confirm_paid
    paymongo_webhook (some (paymongo secret)) signature body now t =
        elim (verify_webhook secret signature body) [
          | err e ↦ (err e, t, [])
          | ok none ↦ (ok tt, t, [])
          | ok (some paid) ↦ confirm_paid paid now t
        ]
    paymongo_webhook _ signature body now t = (err (not_found "webhook"), t, [])

    -- `BillingService::pay_test_checkout`
    unfoldable pub pay_test_checkout :
        Option PaymentGateway → ℕ → ℕ → Tables → ApiResult (Unit {0}) × Tables × List Effect
    unfolding pending_reference confirm_paid
    pay_test_checkout (some (test _)) payment now t = elim (pending_reference payment t) [
      | none ↦ (err (not_found "checkout"), t, [])
      | some reference ↦ confirm_paid (record { reference = reference; method = some "test" }) now t
    ]
    pay_test_checkout _ payment now t = (err (not_found "checkout"), t, [])
