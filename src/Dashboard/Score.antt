-- ===== src/Dashboard/Score.antt =====
-- The health rating of a store: backend/src/features/dashboard/business_score.rs. Money is in
-- centavos. The decimal library's quotient, product and rounding are parameters, as are `peso` for an amount in writing, and `show` for a number in decimal.
pub mod Laws
use Prim.Native.String.{◌++◌ as str_append}
use kitaza.Common.{
  ℕ, String, Bool, true, false, ◌&&◌, not, Option, some, none, unwrap_or, List, [], ◌∷◌, ◌++◌, ltb,
  leb, min, if◌then◌else◌,
}
use kitaza.Common.Int.{ℤ, pos, negsuc, ◌+ℤ◌, ◌-ℤ◌, ltb_ℤ, leb_ℤ, eqb_ℤ}

pub data HealthRating : Type 0 where
  green yellow red : HealthRating

pub record BusinessHealth : Type 0 where
  pub rating : HealthRating
  pub score : ℕ
  pub headline : String
  pub reasons : List String

pub record HealthInputs : Type 0 where
  pub sales_total : ℤ
  pub net_profit : ℤ
  pub previous_net_profit : ℤ
  pub withdrawals_total : ℤ
  pub low_stock_count : ℕ

-- `HEALTHY_MARGIN_PERCENT`
abbrev pub healthy_margin_percent : ℤ
healthy_margin_percent = pos 15

-- `THIN_MARGIN_PERCENT`
abbrev pub thin_margin_percent : ℤ
thin_margin_percent = pos 5

-- `headline_for`
unfoldable pub headline_for : HealthRating → String
headline_for green = "Your store is doing well"
headline_for yellow = "Keep an eye on your numbers"
headline_for red = "Your store needs attention"

-- `score.clamp(0, 100)`
abbrev pub clamp : ℤ → ℕ
clamp (pos n) = min n 100
clamp (negsuc _) = 0

-- The match on the clamped score.
unfoldable pub rating_of : ℕ → HealthRating
rating_of score = if leb 70 score then green else if leb 40 score then yellow else red

-- `TryFrom<Decimal> for i64`, of a whole number.
unfoldable pub to_i64 : ℤ → Option ℤ
to_i64 z =
    if leb_ℤ (negsuc 9_223_372_036_854_775_807) z && leb_ℤ z (pos 9_223_372_036_854_775_807)
    then some z
    else none

-- The operations of `Decimal` that the margin needs: the quotient of two amounts, the product, the
-- number 100, and the rounding to a whole number.
pub record Arithmetic (D : Type 0) : Type 0 where
  pub quotient : ℤ → ℤ → D
  pub times : D → D → D
  pub one_hundred : D
  pub round : D → ℤ

-- A change of the score, with the reasons that go with it.
abbrev pub Signal : Type 0
Signal = ℤ × List String

module _ {D : Type 0} (dec : Arithmetic D) (peso : ℤ → String) (show : ℤ → String) where
  -- `margin_percent`
  unfoldable pub margin_percent : ℤ → ℤ → ℤ
  unfolding to_i64
  margin_percent net_profit sales_total =
      if eqb_ℤ sales_total (pos 0)
      then pos 0
      else unwrap_or
          (to_i64 (dec.round (dec.times (dec.quotient net_profit sales_total) dec.one_hundred)))
          (pos 0)

  unfoldable pub profit_signal : HealthInputs → Signal
  profit_signal inputs =
      if ltb_ℤ (pos 0) inputs.net_profit
      then (
        pos 25,
        str_append (str_append "You earned a profit of " (peso inputs.net_profit)) "." ∷ [],
      )
      else (
        negsuc 29,
        str_append (str_append "You spent " (peso (pos 0 -ℤ inputs.net_profit)))
              " more than you sold."
            ∷ [],
      )

  unfoldable pub margin_signal : HealthInputs → Signal
  unfolding margin_percent
  margin_signal inputs =
      let margin = margin_percent inputs.net_profit inputs.sales_total in
      if leb_ℤ healthy_margin_percent margin
      then (
        pos 15,
        str_append (str_append "Healthy margin: " (show margin)) "% of sales is profit." ∷ [],
      )
      else if leb_ℤ thin_margin_percent margin
      then (
        pos 0,
        str_append (str_append "Thin margin: only " (show margin)) "% of sales is profit." ∷ [],
      )
      else if ltb_ℤ (pos 0) margin
      then (
        negsuc 9,
        str_append (str_append "Very thin margin: " (show margin)) "% of sales is profit." ∷ [],
      )
      else (pos 0, [])

  unfoldable pub trend_signal : HealthInputs → Signal
  trend_signal inputs =
      if eqb_ℤ inputs.previous_net_profit (pos 0)
      then (pos 0, [])
      else if ltb_ℤ inputs.previous_net_profit inputs.net_profit
      then (pos 10, "Profit is higher than the previous period." ∷ [])
      else if ltb_ℤ inputs.net_profit inputs.previous_net_profit
      then (negsuc 9, "Profit is lower than the previous period." ∷ [])
      else (pos 0, [])

  unfoldable pub withdrawal_signal : HealthInputs → Signal
  withdrawal_signal inputs =
      if ltb_ℤ inputs.net_profit inputs.withdrawals_total && ltb_ℤ (pos 0) inputs.withdrawals_total
      then (
        negsuc 14,
        str_append (str_append "You withdrew " (peso inputs.withdrawals_total))
              ", more than the profit you made."
            ∷ [],
      )
      else (pos 0, [])

  unfoldable pub stock_signal : HealthInputs → Signal
  stock_signal inputs =
      if ltb 0 inputs.low_stock_count
      then (
        negsuc 4,
        str_append (show (pos inputs.low_stock_count)) " product(s) need restocking." ∷ [],
      )
      else (pos 0, [])

  -- The score before it is clamped.
  unfoldable pub raw_score : HealthInputs → ℤ
  unfolding profit_signal margin_signal trend_signal withdrawal_signal stock_signal
  raw_score inputs =
      pos 50
      +ℤ (profit_signal inputs).0
      +ℤ (margin_signal inputs).0
      +ℤ (trend_signal inputs).0
      +ℤ (withdrawal_signal inputs).0
      +ℤ (stock_signal inputs).0

  -- `evaluate`
  unfoldable pub evaluate : HealthInputs → BusinessHealth
  unfolding raw_score rating_of headline_for profit_signal margin_signal trend_signal
      withdrawal_signal stock_signal
  evaluate inputs =
      if eqb_ℤ inputs.sales_total (pos 0)
      then record {
        rating = yellow;
        score = 50;
        headline = "No sales recorded yet";
        reasons = "Record your first sale to see how your store is doing." ∷ [];
      }
      else let score = clamp (raw_score inputs) in
        record {
          rating = rating_of score;
          score = score;
          headline = headline_for (rating_of score);
          reasons =
              (profit_signal inputs).1
              ++ (margin_signal inputs).1
              ++ (trend_signal inputs).1
              ++ (withdrawal_signal inputs).1
              ++ (stock_signal inputs).1;
        }
