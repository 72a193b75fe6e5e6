-- ===== src/Services/Stockroom/Laws.antt =====
-- What a stock movement that is sent in does.
use text.Mathlib.Text.{◌==◌ as str_eq}
use kitaza.Common.{
  ℕ, String, ◌≡◌, refl, true, false, not, none, some, List, [], arith, ◌==◌, if◌then◌else◌,
  Option-cases, Bool-cases, inl, inr, ◌⊎◌, ◌&&◌, unwrap_or,
}
use kitaza.Common.Int.{ℤ, pos, eqb_ℤ, ◌+ℤ◌, ◌-ℤ◌, int_laws}
use kitaza.Common.Failure.{ApiResult, ok, err, ok-cases}
use kitaza.Access.Permission.{view_profit, manage_products}
use kitaza.Access.Actor.{Actor, can, require}
use kitaza.Ledger.Tables.{Tables, Product, stock_of, unexplained}
use kitaza.Ledger.Movements.{change, set_to, Entry, find_product, has_movement, record_movement}
use kitaza.Ledger.Movements
use kitaza.Ledger.Movements.Laws.{after, record_movement_once, unexplained-record_movement}
use kitaza.Services.Request.{Env, money_zero, quantity_from_f64, Effect}
use kitaza.Services.Stockroom.{
  RecordMovementRequest, effect_of, movement_name, entry, announced, record_stock,
}

-- What the tables say a product costs.
abbrev pub cost_of : Tables → ℕ → ℤ
cost_of t product = elim (t.products product) [ none ↦ pos 0 | some row ↦ row.cost_price ]

-- What a movement's name and quantity make of the stock on hand.
pub data Leaves (on_hand quantity : ℤ) : String → ℤ → Type 0 where
  comes_in : Leaves on_hand quantity "stock_in" (on_hand +ℤ quantity)
  goes_out : Leaves on_hand quantity "stock_out" (on_hand -ℤ quantity)
  spoils : Leaves on_hand quantity "spoilage" (on_hand -ℤ quantity)
  is_counted : Leaves on_hand quantity "adjustment" quantity

minus_change : (on_hand quantity : ℤ) → on_hand +ℤ (pos 0 -ℤ quantity) ≡ on_hand -ℤ quantity
minus_change on_hand quantity = omega int_laws

effect_of-Leaves :
    {on_hand quantity : ℤ} {name : String} {left : ℤ}
    → Leaves on_hand quantity name left
    → (effect : Movements.Effect) × (effect_of name quantity ≡ some effect)
      × (after effect on_hand ≡ left)
unfolding effect_of
effect_of-Leaves {on_hand} {quantity} comes_in = (change quantity, refl, refl)
effect_of-Leaves {on_hand} {quantity} goes_out =
    (change (pos 0 -ℤ quantity), refl, minus_change on_hand quantity)
effect_of-Leaves {on_hand} {quantity} spoils =
    (change (pos 0 -ℤ quantity), refl, minus_change on_hand quantity)
effect_of-Leaves {on_hand} {quantity} is_counted = (set_to quantity, refl, refl)

module _ {F : Type 0} (env : Env F) (store : ℕ) (actor : Actor) (now : ℕ) (t : Tables)
    (request : RecordMovementRequest F) where
  applied_tables :
      (effect : Movements.Effect)
      → let (applied, t') = record_movement (entry env store actor now request effect) now t in
        (elim applied as (λ x. ApiResult (Unit {0}) × Tables × List Effect) [
          | err e ↦ (err e, t', [])
          | ok none ↦ (ok tt, t', [])
          | ok (some _) ↦ (ok tt, t', announced env store request)
        ]).1
        ≡ t'
  applied_tables effect =
      elim (record_movement (entry env store actor now request effect) now t).0
        as (λ applied.
          (elim applied as (λ x. ApiResult (Unit {0}) × Tables × List Effect) [
            | err e ↦
                (err e, (record_movement (entry env store actor now request effect) now t).1, [])
            | ok none ↦
                (ok tt, (record_movement (entry env store actor now request effect) now t).1, [])
            | ok (some _) ↦ (
              ok tt,
              (record_movement (entry env store actor now request effect) now t).1,
              announced env store request,
            )
          ]).1
          ≡ (record_movement (entry env store actor now request effect) now t).1) [
            | err e ↦ refl
            | ok none ↦ refl
            | ok (some _) ↦ refl
          ]

  record_stock-written :
      (effect : Movements.Effect)
      → require actor manage_products ≡ ok tt
      → effect_of (movement_name env request) (quantity_from_f64 env request.quantity) ≡ some effect
      → (not (str_eq (movement_name env request) "adjustment")
          && eqb_ℤ (quantity_from_f64 env request.quantity) (pos 0))
        ≡ false
      → (record_stock env store actor now t request).1
        ≡ (record_movement (entry env store actor now request effect) now t).1
  unfolding record_stock
  record_stock-written effect allowed known fine =
      rw (allowed, record_stock) (rw (known, record_stock) (rw fine (applied_tables effect)))

  -- A movement that is new, of a product of the store, from someone who may manage products, under
  -- one of the four names and of a quantity that is not zero unless it is a count, adds its
  -- quantity to the stock when it is stock coming in, takes it off when it goes out or is spoiled,
  -- and puts it in the stock's place when it is a count; every other stock stays as it was.
  pub stock_of-record_stock :
      (row : Product) (left : ℤ) (q : ℕ)
      → require actor manage_products ≡ ok tt
      → Leaves row.stock_quantity
          (quantity_from_f64 env request.quantity)
          (movement_name env request)
          left
      → (not (str_eq (movement_name env request) "adjustment")
          && eqb_ℤ (quantity_from_f64 env request.quantity) (pos 0))
        ≡ false
      → find_product t store request.product_id ≡ some row
      → has_movement (unwrap_or request.id (env.new_v4 0)) t.movements ≡ false
      → stock_of (record_stock env store actor now t request).1 q
        ≡ (if q == request.product_id then left else stock_of t q)
  stock_of-record_stock row left q allowed leaves fine found unseen =
      let (effect, known, comes) = effect_of-Leaves leaves in
      rw (record_stock-written effect allowed known fine, ← comes)
        (record_movement_once (entry env store actor now request effect) now now t row q found
          unseen).0

  -- Either nothing is written, or what is written is one movement of the ledger.
  record_stock-cases :
      ((record_stock env store actor now t request).1 ≡ t)
      ⊎ ((effect : Movements.Effect) × ((record_stock env store actor now t request).1
            ≡ (record_movement (entry env store actor now request effect) now t).1))
  unfolding record_stock
  record_stock-cases =
      let quantity = quantity_from_f64 env request.quantity in
      elim (ok-cases (require actor manage_products)) [
        | inr (why, e) ↦ inl (rw (e, record_stock) refl)
        | inl (_, allowed) ↦ elim (Option-cases (effect_of (movement_name env request) quantity)) [
          | inl unknown ↦ inl (rw (allowed, record_stock) (rw (unknown, record_stock) refl))
          | inr (effect, known) ↦
              elim (Bool-cases
                (not (str_eq (movement_name env request) "adjustment") && eqb_ℤ quantity (pos 0))) [
                  | inl nothing ↦
                      inl (rw (allowed, record_stock) (rw (known, record_stock) (rw nothing refl)))
                  | inr fine ↦ inr (effect, record_stock-written effect allowed known fine)
                ]
        ]
      ]

  -- Whatever movement comes in and whoever sends it, no product is left with more or less stock
  -- than its ledger explains.
  pub unexplained-record_stock :
      (q : ℕ) → unexplained (record_stock env store actor now t request).1 q ≡ unexplained t q
  unexplained-record_stock q = elim record_stock-cases [
    | inl same ↦ rw same refl
    | inr (effect, e) ↦
        rw e (unexplained-record_movement (entry env store actor now request effect) now t q)
  ]

  record_movement-keeps_cost :
      (e : Entry) (q : ℕ)
      → e.unit_cost ≡ money_zero
      → cost_of (record_movement e now t).1 q ≡ cost_of t q
  unfolding record_movement
  record_movement-keeps_cost e q free = ground arith

  -- Staff who may not see costs never change what a product costs.
  pub record_stock-keeps_cost :
      (q : ℕ)
      → can actor view_profit ≡ false
      → cost_of (record_stock env store actor now t request).1 q ≡ cost_of t q
  record_stock-keeps_cost q blind = elim record_stock-cases [
    | inl same ↦ rw same refl
    | inr (effect, e) ↦
        rw e
          (record_movement-keeps_cost (entry env store actor now request effect) q (rw blind refl))
  ]

  -- Sent again with the id it was given, a movement that names one is accepted and changes nothing,
  -- and nothing is announced for it.
  pub record_stock_again :
      (id : ℕ) (row : Product)
      → request.id ≡ some id
      → find_product t store request.product_id ≡ some row
      → has_movement id t.movements ≡ true
      → ((record_stock env store actor now t request).1 ≡ t)
        × ((record_stock env store actor now t request).2 ≡ [])
  unfolding record_stock record_movement
  record_stock_again id row named found seen = ground arith
