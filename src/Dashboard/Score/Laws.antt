-- ===== src/Dashboard/Score/Laws.antt =====
-- What the rating of a store can be.
use kitaza.Common.{String, ◌≡◌, ◌≤◌, refl, false, arith, length, ◌∙◌}
use kitaza.Common.Int.{ℤ, pos, negsuc, ◌≤ℤ◌, ◌<ℤ◌, eqb_ℤ, int_laws, parts_of_eq}
use kitaza.Dashboard.Score.{
  Arithmetic, to_i64, green, red, HealthInputs, evaluate, rating_of, clamp, raw_score,
  margin_percent, profit_signal, margin_signal, trend_signal, withdrawal_signal, stock_signal,
  healthy_margin_percent,
}

-- The signs that the decimal library keeps.
pub record IsSigned {D : Type 0} (dec : Arithmetic D) : Type 1 where
  pub NonPositive : D → Type 0
  pub quotient_sign : (a b : ℤ) → a ≤ℤ pos 0 → pos 0 <ℤ b → NonPositive (dec.quotient a b)
  pub times_sign : (d : D) → NonPositive d → NonPositive (dec.times d dec.one_hundred)
  pub round_sign : (d : D) → NonPositive d → dec.round d ≤ℤ pos 0

module _ {D : Type 0} (dec : Arithmetic D) (peso : ℤ → String) (show : ℤ → String)
    (inputs : HealthInputs) where
  -- Whatever the figures are, the score lies between 0 and 100, the colour is that of its band, and
  -- it comes with a written reason.
  pub evaluate_in_range :
      let health = evaluate dec peso show inputs in
      (health.score ≤ 100) × (health.rating ≡ rating_of health.score) × (1 ≤ length health.reasons)
  unfolding evaluate rating_of profit_signal
  evaluate_in_range = ground arith

  abbrev margin : ℤ
  margin = margin_percent dec peso show inputs.net_profit inputs.sales_total

  loss-profit_signal :
      inputs.net_profit ≤ℤ pos 0 → (profit_signal dec peso show inputs).0 ≡ negsuc 29
  unfolding profit_signal
  loss-profit_signal loss = ground arith

  gain-profit_signal : pos 0 <ℤ inputs.net_profit → (profit_signal dec peso show inputs).0 ≡ pos 25
  unfolding profit_signal
  gain-profit_signal gain = ground arith

  loss-margin_signal : margin ≤ℤ pos 0 → (margin_signal dec peso show inputs).0 ≡ pos 0
  unfolding margin_signal
  loss-margin_signal thin = ground arith

  healthy-margin_signal : pos 15 ≤ℤ margin → (margin_signal dec peso show inputs).0 ≡ pos 15
  unfolding margin_signal
  healthy-margin_signal healthy = ground arith

  trend-range :
      (negsuc 9 ≤ℤ (trend_signal dec peso show inputs).0)
      × ((trend_signal dec peso show inputs).0 ≤ℤ pos 10)
  unfolding trend_signal
  trend-range = ground arith

  withdrawal-range : (withdrawal_signal dec peso show inputs).0 ≤ℤ pos 0
  unfolding withdrawal_signal
  withdrawal-range = ground arith

  no-withdrawal :
      inputs.withdrawals_total ≤ℤ inputs.net_profit
      → (withdrawal_signal dec peso show inputs).0 ≡ pos 0
  unfolding withdrawal_signal
  no-withdrawal within = ground arith

  stock-range :
      (negsuc 4 ≤ℤ (stock_signal dec peso show inputs).0)
      × ((stock_signal dec peso show inputs).0 ≤ℤ pos 0)
  unfolding stock_signal
  stock-range = ground arith

  evaluate-rating :
      eqb_ℤ inputs.sales_total (pos 0) ≡ false
      → (evaluate dec peso show inputs).rating ≡ rating_of (clamp (raw_score dec peso show inputs))
  unfolding evaluate
  evaluate-rating sold = ground arith

  red-below : (z : ℤ) → z ≤ℤ pos 39 → rating_of (clamp z) ≡ red
  unfolding rating_of
  red-below (pos n) low = ground arith
  red-below (negsuc n) low = refl

  green-above : (z : ℤ) → pos 70 ≤ℤ z → rating_of (clamp z) ≡ green
  unfolding rating_of
  green-above (pos n) high = ground arith
  green-above (negsuc n) high = absurd (omega arith)

  margin_of_loss :
      IsSigned dec
      → pos 0 <ℤ inputs.sales_total
      → inputs.net_profit ≤ℤ pos 0
      → margin_percent dec peso show inputs.net_profit inputs.sales_total ≤ℤ pos 0
  unfolding margin_percent to_i64
  margin_of_loss signed sold loss =
      let low = signed.round_sign _ (
        signed.times_sign _
          (signed.quotient_sign inputs.net_profit inputs.sales_total loss sold)) in
      ground arith

  -- A period with sales above zero that ends without a profit is rated red, even if it is better
  -- than the one before. It is assumed of the decimal library that an amount of zero or less,
  -- divided by one above zero, multiplied by 100 and rounded, does not become positive.
  pub loss_is_red :
      IsSigned dec
      → pos 0 <ℤ inputs.sales_total
      → inputs.net_profit ≤ℤ pos 0
      → (evaluate dec peso show inputs).rating ≡ red
  unfolding raw_score
  loss_is_red signed sold loss =
      let thin = margin_of_loss signed sold loss in
      let low : (raw_score dec peso show inputs ≤ℤ pos 39) = omega (
        int_laws,
        parts_of_eq (profit_signal dec peso show inputs).0 (negsuc 29) (loss-profit_signal loss),
        parts_of_eq (margin_signal dec peso show inputs).0 (pos 0) (loss-margin_signal thin),
        trend-range,
        withdrawal-range,
        stock-range,
      ) in
      evaluate-rating (ground arith) ∙ red-below (raw_score dec peso show inputs) low

  -- A profit with a healthy margin, of which the owner takes out no more than it is, is rated green,
  -- even if it is less than before and stock runs low.
  pub healthy_is_green :
      eqb_ℤ inputs.sales_total (pos 0) ≡ false
      → pos 0 <ℤ inputs.net_profit
      → healthy_margin_percent ≤ℤ margin_percent dec peso show inputs.net_profit inputs.sales_total
      → inputs.withdrawals_total ≤ℤ inputs.net_profit
      → (evaluate dec peso show inputs).rating ≡ green
  unfolding raw_score
  healthy_is_green sold gain healthy within =
      let high : (pos 70 ≤ℤ raw_score dec peso show inputs) = omega (
        int_laws,
        parts_of_eq (profit_signal dec peso show inputs).0 (pos 25) (gain-profit_signal gain),
        parts_of_eq (margin_signal dec peso show inputs).0 (pos 15) (healthy-margin_signal healthy),
        trend-range,
        parts_of_eq (withdrawal_signal dec peso show inputs).0 (pos 0) (no-withdrawal within),
        stock-range,
      ) in
      evaluate-rating sold ∙ green-above (raw_score dec peso show inputs) high
