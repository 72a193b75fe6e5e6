-- ===== src/Services/Stockroom.antt =====
-- `InventoryService::record` of backend/src/features/inventory/inventory_service.rs, with
-- `AuditAction::for_movement` of backend/src/features/audit/audit_action.rs.
pub mod Laws
use text.Mathlib.Text.{◌==◌ as str_eq}
use Prim.Native.String.{◌++◌}
use kitaza.Common.{
  ℕ, String, Bool, true, false, ◌&&◌, ◌||◌, not, Option, none, some, List, [], ◌∷◌, if◌then◌else◌,
  unwrap_or,
}
use kitaza.Common.Int.{ℤ, pos, ◌-ℤ◌, eqb_ℤ}
use kitaza.Common.Failure.{ApiResult, ok, err, bad_request}
use kitaza.Access.Permission.{view_profit, manage_products}
use kitaza.Access.Actor.{Actor, can, require}
use kitaza.Ledger.Tables.{Tables}
use kitaza.Ledger.Movements.{change, set_to, Entry, record_movement}
use kitaza.Ledger.Movements
use kitaza.Services.Request.{
  Env, money_from_f64, quantity_from_f64, money_zero, trimmed, Effect, audit, invalidate, publish,
  AuditAction,
}
use kitaza.Services.Request

pub record RecordMovementRequest (F : Type 0) : Type 0 where
  pub id : Option ℕ
  pub product_id : ℕ
  pub movement : String
  pub quantity : F
  pub unit_cost : F
  pub note : Option String
  pub occurred_at : Option ℕ

-- The effect of a movement by its name, or `none` where the name is not supported.
unfoldable pub effect_of : String → ℤ → Option Movements.Effect
effect_of movement quantity =
    if str_eq movement "stock_in"
    then some (change quantity)
    else if str_eq movement "stock_out" || str_eq movement "spoilage"
    then some (change (pos 0 -ℤ quantity))
    else if str_eq movement "adjustment"
    then some (set_to quantity)
    else none

-- `AuditAction::for_movement`
unfoldable pub for_movement : String → Option AuditAction
for_movement movement =
    if str_eq movement "stock_in"
    then some Request.AuditAction.stock_received
    else if str_eq movement "stock_out"
    then some Request.AuditAction.stock_removed
    else if str_eq movement "adjustment"
    then some Request.AuditAction.stock_counted
    else if str_eq movement "spoilage"
    then some Request.AuditAction.stock_spoiled
    else none

module _ {F : Type 0} (env : Env F) where
  abbrev pub movement_name : RecordMovementRequest F → String
  movement_name request = env.to_lowercase (env.trim request.movement)

  -- The entry that `record` hands to the repository.
  abbrev pub entry : ℕ → Actor → ℕ → RecordMovementRequest F → Movements.Effect → Entry
  entry store actor now request effect = record {
    store_id = store;
    movement_id = unwrap_or request.id (env.new_v4 0);
    product_id = request.product_id;
    movement = movement_name request;
    effect = effect;
    unit_cost = if can actor view_profit then money_from_f64 env request.unit_cost else money_zero;
    note = trimmed env request.note;
    occurred_at = unwrap_or request.occurred_at now;
  }

  -- What is told to the log, the cache and the phones once a movement has been written.
  abbrev pub announced : ℕ → RecordMovementRequest F → List Effect
  announced store request =
      let rest =
        invalidate store
        ∷ publish Request.RealtimeTopic.product_changed (some request.product_id)
        ∷ [] in
      elim (for_movement (movement_name request)) [
        | none ↦ rest
        | some action ↦ audit action request.product_id ∷ rest
      ]

  -- `InventoryService::record`
  unfoldable pub record_stock :
      ℕ → Actor → ℕ → Tables → RecordMovementRequest F → ApiResult (Unit {0}) × Tables × List Effect
  unfolding require effect_of for_movement record_movement
  record_stock store actor now t request = elim (require actor manage_products) [
    | err e ↦ (err e, t, [])
    | ok _ ↦
        let quantity = quantity_from_f64 env request.quantity in
        elim (effect_of (movement_name request) quantity) [
          | none ↦ (
            err (bad_request (("unsupported stock movement '" ++ movement_name request) ++ "'")),
            t,
            [],
          )
          | some effect ↦
              if not (str_eq (movement_name request) "adjustment") && eqb_ℤ quantity (pos 0)
              then (err (bad_request "quantity must be greater than zero"), t, [])
              else let (applied, t') =
                  record_movement (entry store actor now request effect) now t in
                elim applied [
                  | err e ↦ (err e, t', [])
                  | ok none ↦ (ok tt, t', [])
                  | ok (some _) ↦ (ok tt, t', announced store request)
                ]
        ]
  ]
