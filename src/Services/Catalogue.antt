-- ===== src/Services/Catalogue.antt =====
-- The products of a store: `ProductRepository` of
-- backend/src/features/products/product_repository.rs, and `ProductService::save`,
-- `ProductService::remove` and `describe_save` of product_service.rs beside it. `barcode_taken`
-- stands for the unique index on the barcodes of a store.
pub mod Laws
use text.Mathlib.Text.{◌==◌ as str_eq}
use kitaza.Common.{
  ℕ, String, Bool, true, false, ◌&&◌, ◌||◌, not, Option, none, some, List, [], ◌∷◌, ◌==◌,
  if◌then◌else◌, unwrap_or, is_some,
}
use kitaza.Common.Int.{ℤ, pos, ltb_ℤ, eqb_ℤ}
use kitaza.Common.Failure.{ApiResult, ok, err, not_found, bad_request, conflict, internal}
use kitaza.Access.Permission.{view_profit, manage_products}
use kitaza.Access.Actor.{Actor, can, require}
use kitaza.Ledger.Tables.{Tables, Product}
use kitaza.Ledger.Movements.{find_product}
use kitaza.Services.Request.{
  Env, money_from_f64, quantity_from_f64, money_zero, trimmed, Effect, audit, publish, AuditAction,
}
use kitaza.Services.Request

pub record SaveProductRequest (F : Type 0) : Type 0 where
  pub id : Option ℕ
  pub name : String
  pub barcode : Option String
  pub unit_label : String
  pub cost_price : F
  pub selling_price : F
  pub opening_stock : F
  pub reorder_level : F

abbrev pub put_product : ℕ → Product → Tables → Tables
put_product product row t = record t {
  products = λ id. if id == product then some row else t.products id;
}

-- What an update leaves of a row that is there.
abbrev pub updated : Product → Product → ℕ → Product
updated new old now = record old {
  name = new.name;
  barcode = new.barcode;
  unit_label = new.unit_label;
  cost_price = new.cost_price;
  selling_price = new.selling_price;
  reorder_level = new.reorder_level;
  is_active = true;
  deleted_at = none;
  updated_at = now;
}

-- `ProductRepository::upsert`, with the values of the insertion as a row.
unfoldable pub upsert :
    (Tables → ℕ → ℕ → Option String → Bool) → ℕ → Product → ℕ → Tables → ApiResult Product × Tables
upsert barcode_taken product new now t = elim (t.products product) [
  | none ↦
      if barcode_taken t new.store_id product new.barcode
      then (err (internal "duplicate barcode"), t)
      else (ok new, put_product product new t)
  | some old ↦
      if not (old.store_id == new.store_id)
      then (err (conflict "this record belongs to another store"), t)
      else if barcode_taken t new.store_id product new.barcode
      then (err (internal "duplicate barcode"), t)
      else (ok (updated new old now), put_product product (updated new old now) t)
]

abbrev pub removed : Product → ℕ → Product
removed row now = record row { deleted_at = some now; is_active = false; updated_at = now }

-- `ProductRepository::soft_delete`
unfoldable pub soft_delete : ℕ → ℕ → ℕ → Tables → Option String × Tables
unfolding find_product
soft_delete store product now t = elim (find_product t store product) [
  | none ↦ (none, t)
  | some row ↦ (some row.name, put_product product (removed row now) t)
]

-- `describe_save`: the action that the log is given, if any.
unfoldable pub describe_save : Option Product → Product → Option AuditAction
describe_save none after = some Request.AuditAction.product_added
describe_save (some before) after =
    if str_eq before.name after.name
      && eqb_ℤ before.selling_price after.selling_price
      && eqb_ℤ before.cost_price after.cost_price
    then none
    else some Request.AuditAction.product_changed

module _ {F : Type 0} (env : Env F) where
  abbrev pub product_id : SaveProductRequest F → ℕ
  product_id request = unwrap_or request.id (env.new_v4 0)

  -- The cost that `save` writes.
  abbrev pub saved_cost : Actor → Option Product → SaveProductRequest F → ℤ
  saved_cost actor before request =
      if can actor view_profit
      then money_from_f64 env request.cost_price
      else elim before [ none ↦ money_zero | some product ↦ product.cost_price ]

  -- The values that `save` hands to the upsert.
  abbrev pub new_row : ℕ → Actor → Option Product → ℕ → SaveProductRequest F → Product
  new_row store actor before now request = record {
    store_id = store;
    name = env.trim request.name;
    barcode = trimmed env request.barcode;
    unit_label = env.trim request.unit_label;
    cost_price = saved_cost actor before request;
    selling_price = money_from_f64 env request.selling_price;
    stock_quantity = quantity_from_f64 env request.opening_stock;
    reorder_level = quantity_from_f64 env request.reorder_level;
    is_active = true;
    updated_at = now;
    deleted_at = none;
  }

  abbrev pub save_announced : ℕ → Option Product → Product → List Effect
  save_announced product before after = elim (describe_save before after) [
    | none ↦ publish Request.RealtimeTopic.product_changed (some product) ∷ []
    | some action ↦
        audit action product ∷ publish Request.RealtimeTopic.product_changed (some product) ∷ []
  ]

  -- `ProductService::save`
  unfoldable pub save :
      (Tables → ℕ → ℕ → Option String → Bool)
      → ℕ
      → Actor
      → ℕ
      → Tables
      → SaveProductRequest F
      → ApiResult Product × Tables × List Effect
  unfolding require find_product upsert describe_save
  save barcode_taken store actor now t request = elim (require actor manage_products) [
    | err e ↦ (err e, t, [])
    | ok _ ↦
        let before = find_product t store (product_id request) in
        let row = new_row store actor before now request in
        if ltb_ℤ row.selling_price row.cost_price
        then (
          err (bad_request "selling price is lower than cost price, this product would lose money"),
          t,
          [],
        )
        else let (saved, t') = upsert barcode_taken (product_id request) row now t in
          elim saved [
            | err e ↦ (err e, t', [])
            | ok product ↦ (ok product, t', save_announced (product_id request) before product)
          ]
  ]

-- `ProductService::remove`
unfoldable pub remove : ℕ → Actor → ℕ → ℕ → Tables → ApiResult (Unit {0}) × Tables × List Effect
unfolding require soft_delete
remove store actor product now t = elim (require actor manage_products) [
  | err e ↦ (err e, t, [])
  | ok _ ↦
      let (name, t') = soft_delete store product now t in
      elim name [
        | none ↦ (err (not_found "product"), t', [])
        | some _ ↦ (
          ok tt,
          t',
          audit Request.AuditAction.product_removed product
              ∷ publish Request.RealtimeTopic.product_changed (some product)
              ∷ [],
        )
      ]
]
