-- ===== src/Ledger/Rows.antt =====
-- The sale that `SaleRepository::record` of backend/src/features/sales/sale_repository.rs is given,
-- the rows that it writes, and what the columns of the schema refuse.
use text.Mathlib.Text.{◌==◌ as str_eq}
use kitaza.Common.{
  ℕ, ◌+◌, String, Bool, true, false, ◌&&◌, ◌||◌, Option, none, some, List, ◌==◌, if◌then◌else◌, ltb,
}
use kitaza.Common.Int.{ℤ, ◌-ℤ◌, pos_part, neg_part}
use kitaza.Ledger.Tables.{Product, Sale, Item}

-- `PreparedLine` and `PreparedSale`. The cost is exact, in hundred-thousandths.
pub record Line : Type 0 where
  pub id : ℕ
  pub product_id : Option ℕ
  pub product_name : String
  pub quantity : ℤ
  pub unit_price : ℤ
  pub unit_cost : ℤ
  pub line_total : ℤ

pub record Prepared : Type 0 where
  pub id : ℕ
  pub store_id : ℕ
  pub payment_method : String
  pub total_amount : ℤ
  pub cost_amount : ℤ
  pub discount_amount : ℤ
  pub note : Option String
  pub occurred_at : ℕ
  pub lines : List Line

pub record Recorder : Type 0 where
  pub staff_id : Option ℕ
  pub is_owner : Bool

-- `RecordedSale`
pub record Recorded : Type 0 where
  pub sale : Sale
  pub created : Bool

abbrev pub item_row : ℕ → Line → Item
item_row sale l = record {
  id = l.id;
  sale_id = sale;
  product_id = l.product_id;
  product_name = l.product_name;
  quantity = l.quantity;
  unit_price = l.unit_price;
  unit_cost = l.unit_cost;
  line_total = l.line_total;
}

-- Whether a column of 14 digits, its decimals included, holds an amount: `NUMERIC(14,2)` in
-- centavos, `NUMERIC(14,3)` in thousandths.
unfoldable pub fits : ℤ → Bool
fits amount = ltb (pos_part amount + neg_part amount) 100_000_000_000_000

-- `sales_payment_method_check`
unfoldable pub is_known_method : String → Bool
is_known_method method =
    str_eq method "cash"
    || str_eq method "gcash"
    || str_eq method "maya"
    || str_eq method "bank_transfer"
    || str_eq method "utang"

-- Whether the columns of `sales` take a row.
unfoldable pub admits_sale : Sale → Bool
unfolding fits is_known_method
admits_sale row =
    is_known_method row.payment_method
    && fits row.total_amount
    && fits row.cost_amount
    && fits row.discount_amount

-- Whether the columns of `sale_items` take a line, and so those of `stock_movements`.
unfoldable pub admits_line : Line → Bool
unfolding fits
admits_line l = fits l.quantity && fits l.unit_price && fits l.unit_cost && fits l.line_total

-- Whether a product is there, and its column takes the stock that a line leaves in this store.
unfoldable pub admits_stock : ℕ → ℤ → Option Product → Bool
unfolding fits
admits_stock store quantity none = false
admits_stock store quantity (some row) =
    if row.store_id == store then fits (row.stock_quantity -ℤ quantity) else true

-- The row that `INSERT … ON CONFLICT (id) DO UPDATE` leaves in `sales`.
abbrev pub sale_row : (ℤ → ℤ) → Prepared → Recorder → ℕ → Option Sale → Sale
sale_row numeric s by now none = record {
  store_id = s.store_id;
  payment_method = s.payment_method;
  total_amount = s.total_amount;
  cost_amount = numeric s.cost_amount;
  discount_amount = s.discount_amount;
  note = s.note;
  occurred_at = s.occurred_at;
  recorded_by_staff_id = by.staff_id;
  updated_at = now;
  deleted_at = none;
}
sale_row numeric s by now (some old) = record old {
  payment_method = s.payment_method;
  total_amount = s.total_amount;
  cost_amount = numeric s.cost_amount;
  discount_amount = s.discount_amount;
  note = s.note;
  occurred_at = s.occurred_at;
  updated_at = now;
}

abbrev pub sell : ℤ → ℕ → Product → Product
sell quantity now row = record row {
  stock_quantity = row.stock_quantity -ℤ quantity;
  updated_at = now;
}
