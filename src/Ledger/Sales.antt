-- ===== src/Ledger/Sales.antt =====
-- `SaleRepository::{record, void}` of backend/src/features/sales/sale_repository.rs. A transaction
-- that fails leaves the tables as they were. `numeric` stands for the rounding of a cost, which
-- has five decimals, to its column's two; `uuid_text` for the text of an id; `new_id` for the fresh
-- id of the movement of each line; and `pick` for the row that Postgres uses where an
-- `UPDATE … FROM` joins one row of the table to several: the documentation says only that it uses
-- one of them. The stock that a product is given back is taken to fit its column, and the staff
-- member of a recorder to have a row.
pub mod Effects
pub mod Lines
pub mod TakeBack
pub mod Balance
pub mod Sound
pub mod Undo
pub mod Limits
pub mod Noted
pub mod Accepted
pub use kitaza.Ledger.Rows.{
  Line, Prepared, Recorder, Recorded, item_row, fits, is_known_method, admits_sale, admits_line,
  admits_stock, sale_row, sell,
}
use Prim.Native.String.{◌++◌}
use text.Mathlib.Text.{◌==◌ as str_eq}
use kitaza.Common.{
  ℕ, String, Bool, true, false, ◌&&◌, ◌||◌, Option, none, some, List, [], ◌∷◌, map, ◌==◌,
  if◌then◌else◌, is_some, not, select, ltb, ◌+◌,
}
use kitaza.Common.Int.{ℤ, pos, ◌+ℤ◌, ◌-ℤ◌, pos_part, neg_part}
use kitaza.Common.Failure.{ApiResult, ok, err, conflict, forbidden, internal}
use kitaza.Access.Actor.{eqb_id}
use kitaza.Ledger.Tables.{Product, Movement, Sale, Item, Tables, update_product}
use kitaza.Ledger.Movements.{has_movement}

-- `i.sale_id = $1 AND i.product_id = p.id`
abbrev pub is_line_of : ℕ → ℕ → Item → Bool
is_line_of sale product i = i.sale_id == sale && eqb_id i.product_id (some product)

abbrev pub restock : (Item → List Item → Item) → ℕ → List Item → Product → Product
restock pick now [] row = row
restock pick now (i ∷ is) row = record row {
  stock_quantity = row.stock_quantity +ℤ (pick i is).quantity;
  updated_at = now;
}

-- `restore_stock_for`
unfoldable pub restore_stock_for : (Item → List Item → Item) → ℕ → ℕ → ℕ → Tables → Tables
restore_stock_for pick sale store now t = record t {
  products = λ q. elim (t.products q) [
    | none ↦ none
    | some row ↦ some (
        if row.store_id == store
        then restock pick now (select (is_line_of sale q) t.items) row
        else row)
  ];
}

-- `format!("sale {}", sale.id)`
abbrev pub sale_note : (ℕ → String) → ℕ → String
sale_note uuid_text sale = "sale " ++ uuid_text sale

-- `store_id = $1 AND note = $2 AND deleted_at IS NULL`
abbrev pub is_movement_of : ℕ → String → Movement → Bool
is_movement_of store note m =
    m.store_id == store
    && (elim m.note [ none ↦ false | some n ↦ str_eq n note ])
    && not (is_some m.deleted_at)

abbrev pub retire : ℕ → Movement → Movement
retire now m = record m { deleted_at = some now; updated_at = now }

unfoldable pub retire_where : (Movement → Bool) → ℕ → List Movement → List Movement
retire_where test now [] = []
retire_where test now (m ∷ ms) = (if test m then retire now m else m) ∷ retire_where test now ms

-- `retire_movements_for`
unfoldable pub retire_movements_for : (ℕ → String) → ℕ → ℕ → ℕ → Tables → Tables
unfolding retire_where
retire_movements_for uuid_text sale store now t = record t {
  movements = retire_where (is_movement_of store (sale_note uuid_text sale)) now t.movements;
}

-- `DELETE FROM sale_items WHERE sale_id = $1`
unfoldable pub delete_lines : ℕ → List Item → List Item
delete_lines sale [] = []
delete_lines sale (i ∷ is) =
    let rest = delete_lines sale is in if i.sale_id == sale then rest else i ∷ rest

-- Whether the primary key of `sale_items` refuses a line.
unfoldable pub has_item : ℕ → List Item → Bool
has_item item [] = false
has_item item (i ∷ is) = i.id == item || has_item item is

-- The tables with the item of a line.
abbrev pub with_item : Prepared → Line → Tables → Tables
with_item s l t = record t { items = item_row s.id l ∷ t.items }

module _ (uuid_text : ℕ → String) (new_id : ℕ → ℕ) where
  abbrev pub sale_movement : Prepared → ℕ → Line → ℕ → Movement
  sale_movement s now l product = record {
    id = new_id l.id;
    store_id = s.store_id;
    product_id = product;
    movement = "sale";
    quantity = pos 0 -ℤ l.quantity;
    unit_cost = l.unit_cost;
    note = some (sale_note uuid_text s.id);
    occurred_at = s.occurred_at;
    updated_at = now;
    deleted_at = none;
  }

  -- The tables with the stock and the movement of a line that names a product.
  abbrev pub with_movement : Prepared → ℕ → Line → ℕ → Tables → Tables
  with_movement s now l product t = record t {
    products = update_product product s.store_id (sell l.quantity now) t.products;
    movements = sale_movement s now l product ∷ t.movements;
  }

  -- One turn of the loop over the lines. `none` is a statement that the database refuses: a key
  -- that is taken, a product that is not there, or a number that does not fit its column.
  unfoldable pub insert_line : Prepared → ℕ → Line → Tables → Option Tables
  unfolding has_item has_movement admits_line admits_stock
  insert_line s now l t =
      if has_item l.id t.items || not (admits_line l) then none else elim l.product_id [
        | none ↦ some (with_item s l t)
        | some product ↦
            if admits_stock s.store_id l.quantity (t.products product)
              && not (has_movement (new_id l.id) t.movements)
            then some (with_movement s now l product (with_item s l t))
            else none
      ]

  unfoldable pub insert_lines : Prepared → ℕ → List Line → Tables → Option Tables
  unfolding insert_line
  insert_lines s now [] t = some t
  insert_lines s now (l ∷ ls) t = elim (insert_line s now l t) [
    | none ↦ none
    | some t' ↦ insert_lines s now ls t'
  ]

-- The row that the update of `void` leaves.
abbrev pub voided : ℕ → Sale → Sale
voided now row = record row { deleted_at = some now; updated_at = now }

abbrev pub put_sale : ℕ → Sale → Tables → Tables
put_sale sale row t = record t { sales = λ id. if id == sale then some row else t.sales id }

module _ (uuid_text : ℕ → String) (pick : Item → List Item → Item) where
  -- What an earlier recording of the sale did, taken back.
  abbrev pub take_back : ℕ → ℕ → ℕ → Tables → Tables
  take_back sale store now t =
      retire_movements_for uuid_text sale store now (restore_stock_for pick sale store now t)

  -- `SaleRepository::void`
  unfoldable pub void : ℕ → ℕ → ℕ → Tables → Option Sale × Tables
  unfolding restore_stock_for retire_movements_for
  void store sale now t = elim (t.sales sale) [
    | none ↦ (none, t)
    | some row ↦
        if row.store_id == store && not (is_some row.deleted_at)
        then (some (voided now row), take_back sale store now (put_sale sale (voided now row) t))
        else (none, t)
  ]

-- The sale's row and the emptied lines, before the loop.
abbrev pub open_sale : (ℤ → ℤ) → Prepared → Recorder → ℕ → Tables → Tables
open_sale numeric s by now t = record t {
  sales = λ id. if id == s.id then some (sale_row numeric s by now (t.sales s.id)) else t.sales id;
  items = delete_lines s.id t.items;
}

-- Whether the upsert goes through: the row fits, and a new one is of a store that is there.
abbrev pub admits_new_sale : (ℤ → ℤ) → Prepared → Recorder → ℕ → Tables → Bool
admits_new_sale numeric s by now t =
    admits_sale (sale_row numeric s by now (t.sales s.id))
    && (is_some (t.sales s.id) || t.stores s.store_id)

module _ (numeric : ℤ → ℤ) (uuid_text : ℕ → String) (new_id : ℕ → ℕ) where
  -- From the upsert to the commit, on the tables `u`; `t` is what a failure goes back to.
  unfoldable pub write_sale :
      Prepared → Recorder → ℕ → Tables → Tables → ApiResult Recorded × Tables
  unfolding delete_lines insert_lines admits_sale
  write_sale s by now t u =
      if not (admits_new_sale numeric s by now u)
      then (err (internal "the database refused the sale"), t)
      else elim (insert_lines uuid_text new_id s now s.lines (open_sale numeric s by now u)) [
        | none ↦ (err (internal "the database refused a line"), t)
        | some t' ↦ (
          ok (record {
            sale = sale_row numeric s by now (u.sales s.id);
            created = not (is_some (t.sales s.id));
          }),
          t',
        )
      ]

module _ (numeric : ℤ → ℤ) (uuid_text : ℕ → String) (new_id : ℕ → ℕ)
    (pick : Item → List Item → Item) where
  -- `SaleRepository::record`, once the sale's row has been looked for.
  unfoldable pub record_over :
      Option Sale → Prepared → Recorder → ℕ → Tables → ApiResult Recorded × Tables
  unfolding write_sale restore_stock_for retire_movements_for
  record_over none s by now t = write_sale numeric uuid_text new_id s by now t t
  record_over (some existing) s by now t =
      if not (existing.store_id == s.store_id)
      then (err (conflict "this record belongs to another store"), t)
      else if is_some existing.deleted_at
      then (ok (record { sale = existing; created = false }), t)
      else if not by.is_owner && not (eqb_id existing.recorded_by_staff_id by.staff_id)
      then (err (forbidden "only the owner can change a sale someone else recorded"), t)
      else write_sale numeric uuid_text new_id s by now t
          (take_back uuid_text pick s.id s.store_id now t)

  -- `SaleRepository::record`
  unfoldable pub record_sale : Prepared → Recorder → ℕ → Tables → ApiResult Recorded × Tables
  unfolding record_over
  record_sale s by now t = record_over (t.sales s.id) s by now t
