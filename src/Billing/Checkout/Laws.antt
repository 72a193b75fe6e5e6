-- ===== src/Billing/Checkout/Laws.antt =====
-- What a gateway's message can do to the accounts.
use kitaza.Common.{
  ℕ, String, ◌≡◌, refl, Option, none, some, List, [], arith, Option-cases, inl, inr,
}
use kitaza.Common.Failure.{ok, ok-cases}
use kitaza.Billing.Payments.{Tables}
use kitaza.Billing.Payments.Confirming.{confirm_twice}
use kitaza.Billing.Checkout.{
  GatewayEnv, PaymentGateway, test, paymongo, PaidCheckout, verify_webhook, confirm_paid,
  paymongo_webhook,
}

module _ (env : GatewayEnv) (add_months : ℕ → ℕ → Option ℕ) (store_ids : ℕ → List ℕ) where
  confirm_paid_again :
      (paid : PaidCheckout) (now later : ℕ) (t : Tables)
      → let t' = (confirm_paid env add_months store_ids paid now t).1 in
        confirm_paid env add_months store_ids paid later t' ≡ (ok tt, t', [])
  unfolding confirm_paid
  confirm_paid_again paid now later t =
      ground (arith, confirm_twice add_months paid.reference paid.method paid.method now later t)

  confirm_paid-ok :
      (paid : PaidCheckout) (now : ℕ) (t : Tables)
      → (confirm_paid env add_months store_ids paid now t).0 ≡ ok tt
  unfolding confirm_paid
  confirm_paid-ok paid now t = ground arith

  -- A webhook that is delivered again, or replayed by somebody else, gets the same answer, changes
  -- nothing, and tells nobody.
  pub webhook_again :
      (gateway : Option PaymentGateway) (signature body : String) (now later : ℕ) (t : Tables)
      → let (answer, t', _) =
          paymongo_webhook env add_months store_ids gateway signature body now t in
        paymongo_webhook env add_months store_ids gateway signature body later t' ≡ (answer, t', [])
  unfolding paymongo_webhook
  webhook_again none signature body now later t = refl
  webhook_again (some (test url)) signature body now later t = refl
  webhook_again (some (paymongo secret)) signature body now later t =
      elim (ok-cases (verify_webhook env secret signature body)) [
        | inr (e, f) ↦ ground arith
        | inl (found, f) ↦ elim (Option-cases found) [
          | inl g ↦ ground arith
          | inr (paid, g) ↦
              let told = confirm_paid_again paid now later t in
              ground (arith, told, confirm_paid-ok paid now t)
        ]
      ]
