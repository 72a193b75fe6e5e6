-- ===== src/Services/Tests.antt =====
-- Concrete runs of the services. A number of a request is a natural number of centavos or of
-- thousandths.
mod Cashbook
mod Products
mod Movements
use kitaza.Common.{
  ℕ, ◌+◌, String, ◌≡◌, ◌≢◌, refl, Bool, true, false, Option, none, some, List, [], ◌∷◌, map, arith,
  ◌==◌, if◌then◌else◌,
}
use kitaza.Common.Int.{pos, ◌+ℤ◌, ◌-ℤ◌, ◌*ℤ◌, ◌≤ℤ◌}
use kitaza.Common.Failure.{ok}
use kitaza.Access.Actor.{Actor, can}
use kitaza.Access.Permission.{default, view_profit, delete_records}
use kitaza.Ledger.Tables.{Tables, Product, Item, unexplained}
use kitaza.Ledger.Sales.{Prepared, Line}
use kitaza.Ledger.Sales.Effects.{sum_where, quantities}
use kitaza.Ledger.Sales.TakeBack.{IsSound, PicksOne}
use kitaza.Access.Permission.{manage_products}
use kitaza.Access.Actor.{require}
use kitaza.Common.Failure.{err, forbidden}
use kitaza.Ledger.Tables.{stock_of}
use kitaza.Ledger.Movements.{find_product, has_movement, set_to, ledger_row}
use kitaza.Ledger.Movements.Laws.{after}
use kitaza.Services.Catalogue.{SaveProductRequest, new_row, updated, save, remove}
use kitaza.Services.Catalogue.Laws.{
  stock_of-save, save-no_loss, save-keeps_cost, save-revives, save-refused, other_stores_kept,
  remove_twice,
}
use kitaza.Services.Stockroom.{RecordMovementRequest, effect_of, entry, record_stock}
use kitaza.Services.Stockroom.Laws.{
  cost_of, unexplained-record_stock, record_stock-keeps_cost, stock_of-record_stock,
  record_stock_again,
}
use kitaza.Services.Request.{Env}
use kitaza.Services.Selling.{
  SaleLineRequest, RecordSaleRequest, hide_cost, prepare, record_request, void_request,
}
use kitaza.Services.Selling.Laws.{
  line_totals, line_costs, prepare-totals, unexplained-record_request, prepare-hide_cost,
  void_request-refused,
}

abbrev env : Env ℕ
env = record {
  trim = λ s. s;
  to_lowercase = λ s. s;
  round_dp = λ places x. some (pos x);
  round_money = λ x. x;
  new_v4 = λ n. 900 + n;
}

abbrev fish : Product
fish = record {
  store_id = 1;
  name = "Dried fish";
  barcode = none;
  unit_label = "kg";
  cost_price = pos 8_000;
  selling_price = pos 9_500;
  stock_quantity = pos 12_000;
  reorder_level = pos 2_000;
  is_active = true;
  updated_at = 0;
  deleted_at = none;
}

abbrev stall : Tables
stall = record {
  stores = λ s. s == 1;
  products = λ p. if p == 4 then some fish else none;
  movements = [];
  sales = λ s. none;
  items = [];
}

abbrev cashier : Actor
cashier = record {
  owner_id = 1;
  session_id = 20;
  name = "Ben";
  device_name = "counter";
  staff = some (record { staff_id = 3; store_id = 1; permissions = default });
  subscription = none;
}

abbrev asked_line : SaleLineRequest ℕ
asked_line = record {
  id = none;
  product_id = some 4;
  product_name = none;
  quantity = 3;
  unit_price = none;
  unit_cost = some 1;
}

abbrev request : RecordSaleRequest ℕ
request = record {
  id = some 60;
  payment_method = some "cash";
  discount_amount = 500;
  note = none;
  occurred_at = none;
  items = asked_line ∷ [];
}

abbrev sold_line : Line
sold_line = record {
  id = 901;
  product_id = some 4;
  product_name = "Dried fish";
  quantity = pos 3;
  unit_price = pos 9_500;
  unit_cost = pos 8_000;
  line_total = pos 28_500;
}

abbrev prepared : Prepared
prepared = record {
  id = 60;
  store_id = 1;
  payment_method = "cash";
  total_amount = pos 28_000;
  cost_amount = pos 24_000;
  discount_amount = pos 500;
  note = none;
  occurred_at = 30;
  lines = sold_line ∷ [];
}

prepared_lem : prepare env 1 cashier 30 stall request ≡ ok prepared
unfolding prepare can ◌-ℤ◌ ◌+ℤ◌ ◌*ℤ◌
prepared_lem = refl

prepare-totals_example :
    (prepared.total_amount +ℤ prepared.discount_amount ≡ line_totals prepared.lines)
    × (prepared.discount_amount ≤ℤ line_totals prepared.lines)
    × (prepared.cost_amount ≡ line_costs prepared.lines)
prepare-totals_example = prepare-totals env 1 30 cashier stall request prepared prepared_lem

sees_nothing : can cashier view_profit ≡ false
unfolding can
sees_nothing = refl

deletes_nothing : can cashier delete_records ≡ false
unfolding can
deletes_nothing = refl

abbrev note_text : ℕ → String
note_text n = "sixty"

abbrev only_row : Item → List Item → Item
only_row i is = i

only_row-PicksOne : PicksOne only_row
only_row-PicksOne i = refl

stall-IsSound : IsSound note_text stall 60 1
unfolding sum_where quantities ◌+ℤ◌
stall-IsSound = record {
  single = λ q. omega arith;
  owned = λ q i is e. absurd (ground arith);
  tied = λ q. refl;
  recorded = λ q missing. refl;
}

unexplained-record_request_example :
    unexplained
      (record_request env
        (λ c. c)
        note_text
        (λ n. n)
        only_row
        (λ t s. false)
        1
        cashier
        30
        stall
        request).1
      4
    ≡ unexplained stall 4
unexplained-record_request_example =
    unexplained-record_request env (λ c. c) note_text (λ n. n) only_row only_row-PicksOne
      (λ t s. false) 1 30 cashier stall request 4 stall-IsSound

void_request-refused_example :
    ((void_request env note_text only_row 1 cashier 60 30 stall).1 ≡ stall)
    × ((void_request env note_text only_row 1 cashier 60 30 stall).2 ≡ [])
    × ((void_request env note_text only_row 1 cashier 60 30 stall).0 ≢ ok tt)
void_request-refused_example =
    void_request-refused env note_text only_row 1 60 30 cashier stall deletes_nothing

abbrev clerk : Actor
clerk = record cashier {
  staff = some (record {
    staff_id = 4;
    store_id = 1;
    permissions = record default { manage_products = true };
  });
}

clerk_blind : can clerk view_profit ≡ false
unfolding can
clerk_blind = refl

fish_found : find_product stall 1 4 ≡ some fish
unfolding find_product
fish_found = refl
