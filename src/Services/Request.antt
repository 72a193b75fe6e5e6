-- ===== src/Services/Request.antt =====
-- What the services share: the numbers of a request (backend/src/shared/money.rs), what Rust's and
-- the libraries' functions give, and the effects outside the tables. An effect's details, which
-- only the log and the phones show, are left out.
use kitaza.Common.{ℕ, String, Option, none, some, unwrap_or, if◌then◌else◌}
use text.Mathlib.Text.{◌==◌ as str_eq}
use kitaza.Common.Int.{ℤ, pos}

-- `F` is `f64`. `round_dp n x` stands for `Decimal::from_f64(x)` rounded by `round_dp(n)`, counted
-- in units of the last place; `round_money` rounds an amount in hundred-thousandths to centavos;
-- `new_v4 n` is the n-th id that the handling of a request draws.
pub record Env (F : Type 0) : Type 0 where
  pub trim : String → String
  pub to_lowercase : String → String
  pub round_dp : ℕ → F → Option ℤ
  pub round_money : ℤ → ℤ
  pub new_v4 : ℕ → ℕ

abbrev pub money_scale : ℕ
money_scale = 2

abbrev pub quantity_scale : ℕ
quantity_scale = 3

abbrev pub money_zero : ℤ
money_zero = pos 0

module _ {F : Type 0} (env : Env F) where
  abbrev pub money_from_f64 : F → ℤ
  money_from_f64 value = unwrap_or (env.round_dp money_scale value) (pos 0)

  abbrev pub quantity_from_f64 : F → ℤ
  quantity_from_f64 value = unwrap_or (env.round_dp quantity_scale value) (pos 0)

  -- `.map(|text| text.trim()).filter(|text| !text.is_empty())`
  abbrev pub trimmed : Option String → Option String
  trimmed none = none
  trimmed (some raw) = if str_eq (env.trim raw) "" then none else some (env.trim raw)

pub data AuditAction : Type 0 where
  sale_recorded sale_voided expense_recorded expense_deleted : AuditAction
  withdrawal_recorded withdrawal_deleted : AuditAction
  product_added product_changed product_removed : AuditAction
  stock_received stock_removed stock_counted stock_spoiled : AuditAction
  staff_added staff_changed staff_removed staff_invited staff_joined : AuditAction
  device_signed_out store_added store_renamed subscription_paid : AuditAction

pub data RealtimeTopic : Type 0 where
  sale_recorded sale_voided expense_recorded expense_removed withdrawal_recorded : RealtimeTopic
  product_changed stock_low dashboard_stale access_changed : RealtimeTopic

pub data Effect : Type 0 where
  audit : AuditAction → ℕ → Effect
  invalidate : ℕ → Effect
  publish : RealtimeTopic → Option ℕ → Effect
