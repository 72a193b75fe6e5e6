-- ===== src/Ledger/Movements.antt =====
-- `StockRepository::record_movement` of backend/src/features/inventory/stock_repository.rs.
pub mod Laws
use kitaza.Common.{
  ℕ, String, Bool, true, false, ◌&&◌, ◌||◌, Option, none, some, List, [], ◌∷◌, ◌==◌, if◌then◌else◌,
  is_some, not,
}
use kitaza.Common.Int.{ℤ, pos, ◌+ℤ◌, ◌-ℤ◌, ltb_ℤ}
use kitaza.Common.Failure.{ApiResult, ok, err, not_found}
use kitaza.Ledger.Tables.{Product, Movement, Tables, update_product}

-- `StockEffect`
pub data Effect : Type 0 where
  change set_to : ℤ → Effect

-- `LedgerEntry`
pub record Entry : Type 0 where
  pub store_id : ℕ
  pub movement_id : ℕ
  pub product_id : ℕ
  pub movement : String
  pub effect : Effect
  pub unit_cost : ℤ
  pub note : Option String
  pub occurred_at : ℕ

-- `AppliedMovement`
pub record Applied : Type 0 where
  pub product_name : String
  pub change : ℤ

-- `SELECT … WHERE id = $1 AND store_id = $2 AND deleted_at IS NULL FOR UPDATE`
unfoldable pub find_product : Tables → ℕ → ℕ → Option Product
find_product t store product = elim (t.products product) [
  | none ↦ none
  | some row ↦ if row.store_id == store && not (is_some row.deleted_at) then some row else none
]

unfoldable pub delta : Effect → ℤ → ℤ
delta (change d) on_hand = d
delta (set_to counted) on_hand = counted -ℤ on_hand

-- Whether `ON CONFLICT (id)` applies.
unfoldable pub has_movement : ℕ → List Movement → Bool
has_movement movement [] = false
has_movement movement (m ∷ ms) = m.id == movement || has_movement movement ms

-- The inserted row, and the change of the product's row.
abbrev pub ledger_row : Entry → ℤ → ℕ → Movement
ledger_row e d now = record {
  id = e.movement_id;
  store_id = e.store_id;
  product_id = e.product_id;
  movement = e.movement;
  quantity = d;
  unit_cost = e.unit_cost;
  note = e.note;
  occurred_at = e.occurred_at;
  updated_at = now;
  deleted_at = none;
}

abbrev pub move_stock : ℤ → ℤ → ℕ → Product → Product
move_stock d unit_cost now row = record row {
  stock_quantity = row.stock_quantity +ℤ d;
  cost_price = if ltb_ℤ (pos 0) unit_cost then unit_cost else row.cost_price;
  updated_at = now;
}

-- The two writes of the transaction.
abbrev pub apply_movement : Entry → ℤ → ℕ → Tables → Tables
apply_movement e d now t = record t {
  products = update_product e.product_id e.store_id (move_stock d e.unit_cost now) t.products;
  movements = ledger_row e d now ∷ t.movements;
}

unfoldable pub record_movement : Entry → ℕ → Tables → ApiResult (Option Applied) × Tables
unfolding find_product delta
record_movement e now t = elim (find_product t e.store_id e.product_id) [
  | none ↦ (err (not_found "product"), t)
  | some row ↦ if has_movement e.movement_id t.movements then (ok none, t) else (
    ok (some (record { product_name = row.name; change = delta e.effect row.stock_quantity })),
    apply_movement e (delta e.effect row.stock_quantity) now t,
  )
]
