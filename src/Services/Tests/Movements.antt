-- ===== src/Services/Tests/Movements.antt =====
-- Concrete runs of the recording of stock movements.
use kitaza.Common.{ℕ, ◌≡◌, refl, true, false, none, some, [], ◌∷◌, ◌==◌, if◌then◌else◌}
use kitaza.Common.Int.{pos}
use kitaza.Common.Failure.{ok}
use kitaza.Ledger.Tables.{Tables}
use kitaza.Access.Permission.{manage_products}
use kitaza.Access.Actor.{require}
use kitaza.Ledger.Tables.{stock_of}
use kitaza.Ledger.Movements.{find_product, has_movement, set_to, ledger_row}
use kitaza.Services.Stockroom.{RecordMovementRequest, entry, record_stock}
use kitaza.Services.Stockroom.Laws.{stock_of-record_stock, is_counted}
use kitaza.Services.Tests.{env, fish, stall, clerk, fish_found}

abbrev counted : RecordMovementRequest ℕ
counted = record {
  id = some 300;
  product_id = 4;
  movement = "adjustment";
  quantity = 11_000;
  unit_cost = 5;
  note = none;
  occurred_at = none;
}

clerk_may : require clerk manage_products ≡ ok tt
unfolding require
clerk_may = refl

not_counted_yet : has_movement 300 [] ≡ false
unfolding has_movement
not_counted_yet = refl

stock_of-record_stock_example :
    stock_of (record_stock env 1 clerk 30 stall counted).1 4
    ≡ (if 4 == 4 then pos 11_000 else stock_of stall 4)
stock_of-record_stock_example =
    stock_of-record_stock env 1 clerk 30 stall counted fish (pos 11_000) 4 clerk_may is_counted refl
      fish_found not_counted_yet

abbrev counted_stall : Tables
counted_stall = record stall {
  movements = ledger_row (entry env 1 clerk 30 counted (set_to (pos 11_000))) (pos 0) 30 ∷ [];
}

counted_found : find_product counted_stall 1 4 ≡ some fish
unfolding find_product
counted_found = refl

counted_seen : has_movement 300 counted_stall.movements ≡ true
unfolding has_movement
counted_seen = refl
