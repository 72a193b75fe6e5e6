-- ===== src/Services/Selling.antt =====
-- `SaleService::record` and `SaleService::void` of backend/src/features/sales/sale_service.rs.
pub mod Laws
use text.Mathlib.Text.{◌==◌ as str_eq}
use Prim.Native.String.{◌++◌}
use kitaza.Common.{
  ℕ, suc, ◌+◌, String, Bool, true, false, ◌&&◌, ◌||◌, not, Option, none, some, List, [], ◌∷◌, map,
  if◌then◌else◌, unwrap_or, leb, is_some,
}
use kitaza.Common.Int.{ℤ, pos, ◌+ℤ◌, ◌-ℤ◌, ◌*ℤ◌, min_ℤ}
use kitaza.Common.Failure.{ApiResult, ok, err, ok_or, ◌>>=◌, ◌>>◌, not_found, bad_request}
use kitaza.Access.Permission.{view_profit, delete_records}
use kitaza.Access.Actor.{Actor, can, require, staff_id, is_owner}
use kitaza.Ledger.Tables.{Tables, Product, Sale, Item}
use kitaza.Ledger.Movements.{find_product}
use kitaza.Ledger.Sales.{Line, Prepared, Recorder, Recorded, record_sale, void}
use kitaza.Services.Request.{
  Env, money_from_f64, quantity_from_f64, money_zero, trimmed, Effect, audit, invalidate, publish,
}
use kitaza.Services.Request

pub record SaleLineRequest (F : Type 0) : Type 0 where
  pub id : Option ℕ
  pub product_id : Option ℕ
  pub product_name : Option String
  pub quantity : F
  pub unit_price : Option F
  pub unit_cost : Option F

pub record RecordSaleRequest (F : Type 0) : Type 0 where
  pub id : Option ℕ
  pub payment_method : Option String
  pub discount_amount : F
  pub note : Option String
  pub occurred_at : Option ℕ
  pub items : List (SaleLineRequest F)

-- The lines of a sale with what they come to, the cost in hundred-thousandths.
pub record Tally : Type 0 where
  pub lines : List Line
  pub gross : ℤ
  pub cost : ℤ

-- `ALLOWED_PAYMENT_METHODS`
abbrev pub is_allowed_method : String → Bool
is_allowed_method m =
    str_eq m "cash"
    || str_eq m "gcash"
    || str_eq m "maya"
    || str_eq m "bank_transfer"
    || str_eq m "utang"

module _ {F : Type 0} (env : Env F) where
  abbrev pub money_or : Option F → ℤ → ℤ
  money_or none otherwise = otherwise
  money_or (some x) otherwise = money_from_f64 env x

  -- `normalise_payment_method`
  unfoldable pub normalise_payment_method : Option String → ApiResult String
  normalise_payment_method raw =
      let method = env.to_lowercase (unwrap_or (trimmed env raw) "cash") in
      if is_allowed_method method
      then ok method
      else err (bad_request (("unsupported payment method '" ++ method) ++ "'"))

  -- The name, the price and the cost in `resolve_line`.
  abbrev pub catalogue : ℕ → Tables → SaleLineRequest F → ApiResult (String × ℤ × ℤ)
  catalogue store t item = elim item.product_id [
    | some product_id ↦ elim (find_product t store product_id) [
      | none ↦ err (not_found "product")
      | some product ↦ ok (
        product.name,
        money_or item.unit_price product.selling_price,
        money_or item.unit_cost product.cost_price,
      )
    ]
    | none ↦ elim item.unit_price [
      | none ↦ err (bad_request "a quick sale needs an amount")
      | some price ↦ ok (
        unwrap_or (trimmed env item.product_name) "Quick sale",
        money_from_f64 env price,
        money_or item.unit_cost money_zero,
      )
    ]
  ]

  -- `resolve_line`, for the n-th line.
  unfoldable pub resolve_line : ℕ → Tables → ℕ → SaleLineRequest F → ApiResult Line
  unfolding find_product
  resolve_line store t n item = catalogue store t item >>= λ (name, unit_price, unit_cost).
      let quantity = quantity_from_f64 env item.quantity in
      ok (record {
        id = unwrap_or item.id (env.new_v4 n);
        product_id = item.product_id;
        product_name = name;
        quantity = quantity;
        unit_price = unit_price;
        unit_cost = unit_cost;
        line_total = env.round_money (unit_price *ℤ quantity);
      })

  -- The loop over the items in `record`.
  unfoldable pub resolve_lines : ℕ → Tables → ℕ → List (SaleLineRequest F) → ℤ → ℤ → ApiResult Tally
  unfolding resolve_line
  resolve_lines store t n [] gross cost = ok (record { lines = []; gross = gross; cost = cost })
  resolve_lines store t n (item ∷ items) gross cost = resolve_line store t n item >>= λ line.
      resolve_lines store t (suc n) items (gross +ℤ line.line_total)
        (cost +ℤ (line.unit_cost *ℤ line.quantity))
      >>= λ rest. ok (record rest { lines = line ∷ rest.lines })

  abbrev pub hide_cost : SaleLineRequest F → SaleLineRequest F
  hide_cost item = record item { unit_cost = none }

  -- The items as `record` reads them.
  abbrev pub seen_items : Actor → List (SaleLineRequest F) → List (SaleLineRequest F)
  seen_items actor items = if can actor view_profit then items else map hide_cost items

  -- The sale that `record` hands to the repository. Its id is drawn first, as the id 0.
  unfoldable pub prepare : ℕ → Actor → ℕ → Tables → RecordSaleRequest F → ApiResult Prepared
  unfolding normalise_payment_method resolve_lines
  prepare store actor now t request = normalise_payment_method request.payment_method >>= λ method.
      resolve_lines store t 1 (seen_items actor request.items) money_zero money_zero >>= λ tally.
      let discount = min_ℤ (money_from_f64 env request.discount_amount) tally.gross in
      ok (record {
        id = unwrap_or request.id (env.new_v4 0);
        store_id = store;
        payment_method = method;
        total_amount = tally.gross -ℤ discount;
        cost_amount = tally.cost;
        discount_amount = discount;
        note = trimmed env request.note;
        occurred_at = unwrap_or request.occurred_at now;
        lines = tally.lines;
      })

  module _ (numeric : ℤ → ℤ) (uuid_text : ℕ → String) (new_id : ℕ → ℕ)
      (pick : Item → List Item → Item) (is_low_stock : Tables → ℕ → Bool) where
    -- `announce_low_stock`; `is_low_stock` stands for `list_low_stock` finding a product.
    abbrev pub announce_low_stock : ℕ → Tables → List Effect
    announce_low_stock store t =
        if is_low_stock t store then publish Request.RealtimeTopic.stock_low none ∷ [] else []

    abbrev pub announced : ℕ → Prepared → Tables → Recorded → List Effect
    announced store sale t recorded =
        let rest =
          invalidate store
          ∷ publish Request.RealtimeTopic.sale_recorded (some sale.id)
          ∷ announce_low_stock store t in
        if recorded.created then audit Request.AuditAction.sale_recorded sale.id ∷ rest else rest

    -- `SaleService::record`: the answer, the tables and the effects.
    unfoldable pub record_request :
        ℕ → Actor → ℕ → Tables → RecordSaleRequest F → ApiResult Recorded × Tables × List Effect
    unfolding prepare record_sale staff_id is_owner
    record_request store actor now t request = elim (prepare store actor now t request) [
      | err e ↦ (err e, t, [])
      | ok sale ↦
          let by : Recorder = record { staff_id = staff_id actor; is_owner = is_owner actor } in
          let (answer, t') = record_sale numeric uuid_text new_id pick sale by now t in
          elim answer [
            | err e ↦ (err e, t', [])
            | ok recorded ↦ (ok recorded, t', announced store sale t' recorded)
          ]
    ]

  -- `SaleService::void`
  unfoldable pub void_request :
      (ℕ → String)
      → (Item → List Item → Item)
      → ℕ
      → Actor
      → ℕ
      → ℕ
      → Tables
      → ApiResult (Unit {0}) × Tables × List Effect
  unfolding require void
  void_request uuid_text pick store actor sale now t = elim (require actor delete_records) [
    | err e ↦ (err e, t, [])
    | ok _ ↦
        let (voided, t') = void uuid_text pick store sale now t in
        elim voided [
          | none ↦ (err (not_found "sale"), t', [])
          | some row ↦ (
            ok tt,
            t',
            audit Request.AuditAction.sale_voided sale
                ∷ invalidate store
                ∷ publish Request.RealtimeTopic.sale_voided (some sale)
                ∷ [],
          )
        ]
  ]
