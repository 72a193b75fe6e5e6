-- ===== src/Dashboard/Tests.antt =====
-- Concrete runs of the rating.
use kitaza.Common.{String, ◌≡◌, arith, suc, ◌*◌, ◌/◌, zero}
use kitaza.Common.Int.{ℤ, pos, negsuc, ◌*ℤ◌, ◌-ℤ◌, ◌≤ℤ◌, ◌<ℤ◌, int_laws}
use kitaza.Dashboard.Score.{Arithmetic, HealthInputs, red, evaluate}
use kitaza.Dashboard.Score.Laws.{IsSigned, loss_is_red}

-- Quotients in ten-thousandths, cut off towards zero; divisors of zero or less are not used.
abbrev quotient : ℤ → ℤ → ℤ
quotient (pos zero) _ = pos 0
quotient (pos (suc n)) (pos s) = pos (suc n * 10_000 / s)
quotient (negsuc n) (pos s) = pos 0 -ℤ pos (suc n * 10_000 / s)
quotient _ _ = pos 0

abbrev round : ℤ → ℤ
round (pos n) = pos (n / 10_000)
round (negsuc n) = pos 0 -ℤ pos (suc n / 10_000)

abbrev ten_thousandths : Arithmetic ℤ
ten_thousandths = record {
  quotient = quotient;
  times = λ a b. a *ℤ b;
  one_hundred = pos 100;
  round = round;
}

quotient_sign : (a b : ℤ) → a ≤ℤ pos 0 → pos 0 <ℤ b → quotient a b ≤ℤ pos 0
quotient_sign (pos zero) b h k = omega arith
quotient_sign (pos (suc n)) b h k = absurd (omega arith)
quotient_sign (negsuc n) (pos s) h k = omega int_laws
quotient_sign (negsuc n) (negsuc s) h k = omega arith

times_sign : (d : ℤ) → d ≤ℤ pos 0 → d *ℤ pos 100 ≤ℤ pos 0
unfolding ◌*ℤ◌
times_sign (pos n) h = ground arith
times_sign (negsuc n) h = ground arith

round_sign : (d : ℤ) → d ≤ℤ pos 0 → round d ≤ℤ pos 0
round_sign (pos n) h = omega arith
round_sign (negsuc n) h = omega int_laws

signed : IsSigned ten_thousandths
signed = record {
  NonPositive = λ d. d ≤ℤ pos 0;
  quotient_sign = quotient_sign;
  times_sign = times_sign;
  round_sign = round_sign;
}

abbrev text : ℤ → String
text _ = ""

abbrev loss : HealthInputs
loss = record {
  sales_total = pos 10_000;
  net_profit = negsuc 1_199;
  previous_net_profit = negsuc 1_499;
  withdrawals_total = pos 0;
  low_stock_count = 0;
}

loss_is_red_example : (evaluate ten_thousandths text text loss).rating ≡ red
loss_is_red_example = loss_is_red ten_thousandths text text loss signed (omega arith) (omega arith)
