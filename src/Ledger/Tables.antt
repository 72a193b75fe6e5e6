-- ===== src/Ledger/Tables.antt =====
-- The tables that hold stock: `products`, `stock_movements`, `sales` and `sale_items`
-- (backend/migrations). A table with a primary key that statements look up is a function from the
-- key; one that statements scan is a list of rows. Money is counted in centavos and quantities in
-- thousandths, the scales of their columns.
use kitaza.Common.{
  ℕ, String, Bool, ◌&&◌, Option, none, some, List, [], ◌∷◌, ◌==◌, if◌then◌else◌, is_some, not,
}
use kitaza.Common.Int.{ℤ, pos, ◌+ℤ◌, ◌-ℤ◌}

pub record Product : Type 0 where
  pub store_id : ℕ
  pub name : String
  pub barcode : Option String
  pub unit_label : String
  pub cost_price : ℤ
  pub selling_price : ℤ
  pub stock_quantity : ℤ
  pub reorder_level : ℤ
  pub is_active : Bool
  pub updated_at : ℕ
  pub deleted_at : Option ℕ

pub record Movement : Type 0 where
  pub id : ℕ
  pub store_id : ℕ
  pub product_id : ℕ
  pub movement : String
  pub quantity : ℤ
  pub unit_cost : ℤ
  pub note : Option String
  pub occurred_at : ℕ
  pub updated_at : ℕ
  pub deleted_at : Option ℕ

pub record Sale : Type 0 where
  pub store_id : ℕ
  pub payment_method : String
  pub total_amount : ℤ
  pub cost_amount : ℤ
  pub discount_amount : ℤ
  pub note : Option String
  pub occurred_at : ℕ
  pub recorded_by_staff_id : Option ℕ
  pub updated_at : ℕ
  pub deleted_at : Option ℕ

pub record Item : Type 0 where
  pub id : ℕ
  pub sale_id : ℕ
  pub product_id : Option ℕ
  pub product_name : String
  pub quantity : ℤ
  pub unit_price : ℤ
  pub unit_cost : ℤ
  pub line_total : ℤ

-- Of the table of stores, which ids it has.
pub record Tables : Type 0 where
  pub stores : ℕ → Bool
  pub products : ℕ → Option Product
  pub movements : List Movement
  pub sales : ℕ → Option Sale
  pub items : List Item

-- `UPDATE products SET … WHERE id = $1 AND store_id = $2`
abbrev pub update_product : ℕ → ℕ → (Product → Product) → (ℕ → Option Product) → ℕ → Option Product
update_product product store change products q = elim (products q) [
  | none ↦ none
  | some row ↦ some (if q == product && row.store_id == store then change row else row)
]

-- What the tables say a product has on hand.
abbrev pub stock_of : Tables → ℕ → ℤ
stock_of t product = elim (t.products product) [ none ↦ pos 0 | some row ↦ row.stock_quantity ]

-- Whether a row of the ledger counts: it is of the product, and has not been retired.
abbrev pub counts : ℕ → Movement → Bool
counts product m = m.product_id == product && not (is_some m.deleted_at)

-- The sum of the live movements of a product.
unfoldable pub live_sum : ℕ → List Movement → ℤ
live_sum product [] = pos 0
live_sum product (m ∷ ms) = (if counts product m then m.quantity else pos 0) +ℤ live_sum product ms

-- The stock of a product that its ledger does not explain: what it opened with.
unfoldable pub unexplained : Tables → ℕ → ℤ
unexplained t product = stock_of t product -ℤ live_sum product t.movements
