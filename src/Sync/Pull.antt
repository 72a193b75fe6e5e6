-- ===== src/Sync/Pull.antt =====
-- `SyncService::pull` of backend/src/features/sync/sync_service.rs. A row is a JSON value of type
-- `V`; `set_zero` stands for `get_mut` and the assignment in `zero_field`, `sale_id` for the
-- parsing of a row's id, `lines_for_sales` for the query of the sales' lines, and `to_hex` and
-- `of_hex` for the writing of cursors.
pub mod Withheld
use kitaza.Common.{
  ℕ, String, ◌≡◌, refl, Bool, true, false, ◌&&◌, ◌||◌, not, Option, none, some, List, [], ◌∷◌, map,
  length, leb, arith, if◌then◌else◌,
}
use kitaza.Access.Permission.{view_profit}
use kitaza.Access.Actor.{Actor, can}
use kitaza.Sync.Cursor.{
  SyncTable, products, sales, expenses, withdrawals, stock_movements, SyncCursor, mark, advance,
  encode, decode, decode-encode, mark-advance,
}
use kitaza.Sync.Cursor
use kitaza.Sync.Paging.{Row, ChangedPage, changed_since}

pub record PullResponse (V : Type 0) : Type 0 where
  pub products : List V
  pub sales : List V
  pub sale_items : List V
  pub expenses : List V
  pub withdrawals : List V
  pub stock_movements : List V
  pub cursor : String
  pub has_more : Bool

-- What the loop over the tables carries.
pub record Pulled (V : Type 0) : Type 0 where
  pub page : SyncTable → List V
  pub cursor : SyncCursor
  pub has_more : Bool

-- `matches!(table, SyncTable::Expenses | SyncTable::Withdrawals)`
abbrev pub shows_costs : SyncTable → Bool
shows_costs expenses = true
shows_costs withdrawals = true
shows_costs _ = false

-- `sale_ids`, a `filter_map`.
unfoldable pub filter_map : {A B : Type 0} → (A → Option B) → List A → List B
filter_map f [] = []
filter_map f (x ∷ xs) = let rest = filter_map f xs in elim (f x) [ none ↦ rest | some y ↦ y ∷ rest ]

module _ {V : Type 0} (page_size settle_window now store : ℕ)
    (tables : SyncTable → List (Row V)) where
  abbrev pub page_of : SyncTable → SyncCursor → ChangedPage V
  page_of table cursor =
      changed_since settle_window now (tables table) store (mark cursor table) page_size

  -- One turn of the loop. The pages are kept by their tables.
  unfoldable pub pull_table : Bool → SyncTable → Pulled V → Pulled V
  unfolding mark advance
  pull_table sees_costs table so_far =
      if not sees_costs && shows_costs table
      then record so_far {
        page = λ other. if Cursor.eqb other table then [] else so_far.page other;
      }
      else let page = page_of table so_far.cursor in
        record {
          page = λ other. if Cursor.eqb other table then page.rows else so_far.page other;
          cursor = elim page.last [
            | none ↦ so_far.cursor
            | some last ↦ advance table last so_far.cursor
          ];
          has_more = so_far.has_more || leb page_size (length page.rows);
        }

  unfoldable pub pull_tables : Bool → List SyncTable → Pulled V → Pulled V
  unfolding pull_table
  pull_tables sees_costs [] so_far = so_far
  pull_tables sees_costs (table ∷ rest) so_far =
      pull_tables sees_costs rest (pull_table sees_costs table so_far)

  abbrev pub starting : SyncCursor → Pulled V
  starting cursor = record { page = λ table. []; cursor = cursor; has_more = false }

  module _ (set_zero : String → V → V) (sale_id : V → Option ℕ) (lines_for_sales : List ℕ → List V)
      (to_hex : SyncCursor → String) (of_hex : String → Option SyncCursor) where
    -- `zero_field`
    abbrev pub zero_field : Bool → String → List V → List V
    zero_field true field rows = rows
    zero_field false field rows = map (set_zero field) rows

    unfoldable pub pull : Actor → Option String → PullResponse V
    pull actor raw =
        let sees_costs = can actor view_profit in
        let pulled = pull_tables sees_costs Cursor.all (starting (decode of_hex raw)) in
        record {
          products = zero_field sees_costs "cost_price" (pulled.page products);
          sales = zero_field sees_costs "cost_amount" (pulled.page sales);
          sale_items =
              zero_field sees_costs "unit_cost"
                (lines_for_sales (filter_map sale_id (pulled.page sales)));
          expenses = pulled.page expenses;
          withdrawals = pulled.page withdrawals;
          stock_movements = zero_field sees_costs "unit_cost" (pulled.page stock_movements);
          cursor = encode to_hex pulled.cursor;
          has_more = pulled.has_more;
        }
