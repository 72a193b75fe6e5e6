-- ===== src/Ledger/Movements/Laws.antt =====
-- A recorded movement is explained by its ledger row, and counts once.
use kitaza.Common.{
  ℕ, ◌≡◌, refl, true, false, none, some, ◌==◌, if◌then◌else◌, Bool-cases, Option-cases, inl, inr,
  arith,
}
use kitaza.Common.Int.{ℤ, ◌+ℤ◌, int_laws, shift_both, zero-+ℤ}
use kitaza.Common.Failure.{ok}
use kitaza.Ledger.Tables.{Product, Tables, stock_of, live_sum, unexplained}
use kitaza.Ledger.Movements.{
  Entry, Effect, set_to, change, find_product, delta, has_movement, apply_movement, move_stock,
  record_movement,
}

find_product-some :
    (t : Tables) (store product : ℕ) (row : Product)
    → find_product t store product ≡ some row
    → (t.products product ≡ some row) × (row.store_id ≡ store)
unfolding find_product
find_product-some t store product row found = ground arith

module _ (e : Entry) (now : ℕ) (t : Tables) (row : Product) (d : ℤ)
    (found : find_product t e.store_id e.product_id ≡ some row) where
  stock-apply_movement :
      (q : ℕ)
      → stock_of (apply_movement e d now t) q
        ≡ (if q == e.product_id then row.stock_quantity +ℤ d else stock_of t q)
  stock-apply_movement q =
      let (here, own) = find_product-some t e.store_id e.product_id row found in
      elim (Bool-cases (q == e.product_id)) [
        | inl same ↦
            let same' : q ≡ e.product_id = ground arith in
            let here' : t.products q ≡ some row = rw same' here in ground arith
        | inr differs ↦ ground arith
      ]

  unexplained-apply_movement : (q : ℕ) → unexplained (apply_movement e d now t) q ≡ unexplained t q
  unfolding unexplained live_sum
  unexplained-apply_movement q =
      let (here, own) = find_product-some t e.store_id e.product_id row found in
      elim (Bool-cases (q == e.product_id)) [
        | inl same ↦
            let same' : q ≡ e.product_id = ground arith in
            let here' : t.products q ≡ some row = rw same' here in
            ground (
              arith,
              stock-apply_movement q,
              shift_both row.stock_quantity (live_sum q t.movements) d,
            )
        | inr differs ↦ ground (arith, stock-apply_movement q, zero-+ℤ (live_sum q t.movements))
      ]

-- Recording a movement leaves no product with stock that its ledger does not explain beyond what
-- there was: the movement's row carries exactly the change of the stock. So do its refusals and
-- its replays, which change nothing.
pub unexplained-record_movement :
    (e : Entry) (now : ℕ) (t : Tables) (q : ℕ)
    → unexplained (record_movement e now t).1 q ≡ unexplained t q
unfolding record_movement
unexplained-record_movement e now t q =
    elim (Option-cases (find_product t e.store_id e.product_id)) [
      | inl missing ↦ ground arith
      | inr (row, found) ↦ ground (
        arith,
        unexplained-apply_movement e now t row (delta e.effect row.stock_quantity) found q,
      )
    ]

-- The stock that a movement leaves: an amount is added, and a count is what there is.
abbrev pub after : Effect → ℤ → ℤ
after (change d) on_hand = on_hand +ℤ d
after (set_to counted) on_hand = counted

add-delta : (effect : Effect) (on_hand : ℤ) → on_hand +ℤ delta effect on_hand ≡ after effect on_hand
unfolding delta
add-delta (change d) on_hand = refl
add-delta (set_to counted) on_hand = omega int_laws

module _ (e : Entry) (now : ℕ) (t : Tables) (row : Product) where
  record_movement-seen :
      find_product t e.store_id e.product_id ≡ some row
      → has_movement e.movement_id t.movements ≡ true
      → record_movement e now t ≡ (ok none, t)
  unfolding record_movement
  record_movement-seen found seen = rw (found, record_movement) (rw (seen, record_movement))

  record_movement-new :
      find_product t e.store_id e.product_id ≡ some row
      → has_movement e.movement_id t.movements ≡ false
      → (record_movement e now t).1 ≡ apply_movement e (delta e.effect row.stock_quantity) now t
  unfolding record_movement
  record_movement-new found unseen = ground arith

  find_product-apply_movement :
      (d : ℤ)
      → find_product t e.store_id e.product_id ≡ some row
      → find_product (apply_movement e d now t) e.store_id e.product_id
        ≡ some (move_stock d e.unit_cost now row)
  unfolding find_product
  find_product-apply_movement d found = ground arith

  has_movement-apply_movement :
      (d : ℤ) → has_movement e.movement_id (apply_movement e d now t).movements ≡ true
  unfolding has_movement
  has_movement-apply_movement d = ground arith

-- A movement that the server has not seen, of a product of the store, leaves that product with
-- the stock that its effect asks for, and every other product with the stock it had; sent again,
-- at any time, it is accepted as a replay and changes nothing.
pub record_movement_once :
    (e : Entry) (now again : ℕ) (t : Tables) (row : Product) (q : ℕ)
    → find_product t e.store_id e.product_id ≡ some row
    → has_movement e.movement_id t.movements ≡ false
    → let recorded = (record_movement e now t).1 in
      (stock_of recorded q
        ≡ (if q == e.product_id then after e.effect row.stock_quantity else stock_of t q))
      × (record_movement e again recorded ≡ (ok none, recorded))
record_movement_once e now again t row q found unseen =
    let d = delta e.effect row.stock_quantity in
    rw (record_movement-new e now t row found unseen) (
      ground (
        arith,
        stock-apply_movement e now t row d found q,
        add-delta e.effect row.stock_quantity,
      ),
      record_movement-seen e again (apply_movement e d now t) (move_stock d e.unit_cost now row)
          (find_product-apply_movement e now t row d found)
          (has_movement-apply_movement e now t row d),
    )
