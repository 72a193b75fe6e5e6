-- ===== src/Ledger/Tests.antt =====
-- A small shop on which the code of the ledger runs, and each law of the ledger at an input.
use kitaza.Common.{
  ℕ, ◌+◌, String, ◌≡◌, refl, true, false, Option, none, some, List, [], ◌∷◌, arith, ◌==◌,
  if◌then◌else◌, inl, select,
}
use kitaza.Common.Int.{ℤ, pos, ◌+ℤ◌, ◌-ℤ◌, ◌<ℤ◌}
use kitaza.Common.Failure.{ApiResult, ok, err, conflict}
use kitaza.Common.Sort.{All}
use kitaza.Ledger.Tables.{Product, Sale, Item, Tables, stock_of, unexplained}
use kitaza.Ledger.Movements.{Entry, change, set_to, record_movement, find_product, has_movement}
use kitaza.Ledger.Movements.Laws.{record_movement_once, after}
use kitaza.Ledger.Sales.{
  item_row, Line, Prepared, Recorder, Recorded, record_sale, void, is_line_of, sale_row, voided,
}
use kitaza.Ledger.Sales.Effects.{InStore, line_sum}
use kitaza.Ledger.Sales.TakeBack.{IsSound, PicksOne}
use kitaza.Ledger.Sales.Balance.{unexplained-record_sale, unexplained-void}
use kitaza.Ledger.Sales.Sound.{Distinct}
use kitaza.Ledger.Sales.Undo.{void_undoes, record_sale_again, first-IsSound}
use kitaza.Ledger.Sales.{sell}
use kitaza.Ledger.Sales.{has_item}
use kitaza.Ledger.Rows.{admits_line, admits_stock, admits_sale}
use kitaza.Ledger.Sales.Accepted.{HasIds, IsFresh, record_sale_accepted}
use kitaza.Ledger.Sales.Noted.{noted_movement_unbalances}
use kitaza.Ledger.Sales.Limits.{void_gives_back_less}

abbrev rice : Product
rice = record {
  store_id = 1;
  name = "Rice";
  barcode = none;
  unit_label = "kg";
  cost_price = pos 4_500;
  selling_price = pos 5_200;
  stock_quantity = pos 25_000;
  reorder_level = pos 5_000;
  is_active = true;
  updated_at = 0;
  deleted_at = none;
}

abbrev shop : Tables
shop = record {
  stores = λ s. s == 1;
  products = λ p. if p == 7 then some rice else none;
  movements = [];
  sales = λ s. none;
  items = [];
}

abbrev uuid_text : ℕ → String
uuid_text n = if n == 5 then "five" else "other"

abbrev first_row : Item → List Item → Item
first_row i is = i

abbrev two_kilos : Line
two_kilos = record {
  id = 100;
  product_id = some 7;
  product_name = "Rice";
  quantity = pos 2_000;
  unit_price = pos 5_200;
  unit_cost = pos 4_500;
  line_total = pos 10_400;
}

abbrev load : Line
load = record {
  id = 101;
  product_id = none;
  product_name = "Quick sale";
  quantity = pos 1_000;
  unit_price = pos 3_000;
  unit_cost = pos 0;
  line_total = pos 3_000;
}

abbrev sale_of : List Line → Prepared
sale_of lines = record {
  id = 5;
  store_id = 1;
  payment_method = "cash";
  total_amount = pos 13_400;
  cost_amount = pos 9_000_000;
  discount_amount = pos 0;
  note = none;
  occurred_at = 40;
  lines = lines;
}

abbrev basket : Prepared
basket = sale_of (two_kilos ∷ load ∷ [])

abbrev cashier : Recorder
cashier = record { staff_id = some 3; is_owner = false }

abbrev to_centavos : ℤ → ℤ
to_centavos amount = pos 9_000

abbrev next_id : ℕ → ℕ
next_id line = line + 1_000

abbrev later_id : ℕ → ℕ
later_id line = line + 2_000

abbrev outcome : ApiResult Recorded × Tables
outcome = record_sale to_centavos uuid_text next_id first_row basket cashier 50 shop

abbrev recorded : Recorded
recorded = record { sale = sale_row to_centavos basket cashier 50 none; created = true }

outcome_lem : outcome ≡ (ok recorded, outcome.1)
unfolding record_sale ◌-ℤ◌ ◌+ℤ◌
outcome_lem = refl

sold : stock_of outcome.1 7 ≡ pos 23_000
unfolding record_sale ◌-ℤ◌ ◌+ℤ◌
sold = refl

basket-InStore : All (InStore shop 1) basket.lines
basket-InStore = ((rice, refl, refl), (tt, tt))

shop-IsSound : IsSound uuid_text shop 5 1
unfolding kitaza.Ledger.Sales.Effects.sum_where kitaza.Ledger.Sales.Effects.quantities ◌+ℤ◌
shop-IsSound = record {
  single = λ q. omega arith;
  owned = λ q i is e. absurd (ground arith);
  tied = λ q. refl;
  recorded = λ q missing. refl;
}

basket-Distinct : Distinct basket.lines
basket-Distinct q = ground arith

one_row : PicksOne first_row
one_row i = refl

sold-IsSound : IsSound uuid_text outcome.1 5 1
sold-IsSound =
    first-IsSound to_centavos uuid_text next_id first_row one_row basket cashier 50 shop outcome.1
      recorded basket-InStore shop-IsSound basket-Distinct refl outcome_lem

unexplained-record_sale_example : unexplained outcome.1 7 ≡ unexplained shop 7
unexplained-record_sale_example =
    unexplained-record_sale to_centavos uuid_text next_id first_row one_row basket cashier 50 shop 7
      basket-InStore shop-IsSound

unexplained-void_example :
    unexplained (void uuid_text first_row 1 5 60 outcome.1).1 7 ≡ unexplained outcome.1 7
unexplained-void_example =
    unexplained-void uuid_text first_row one_row 1 5 60 outcome.1 7 sold-IsSound

void_undoes_example :
    let (voided_sale, after) = void uuid_text first_row 1 5 60 outcome.1 in
    (voided_sale ≡ some (voided 60 recorded.sale)) × (stock_of after 7 ≡ stock_of shop 7)
void_undoes_example =
    void_undoes to_centavos uuid_text next_id first_row one_row basket cashier 50 shop outcome.1
      recorded basket-InStore shop-IsSound basket-Distinct refl outcome_lem 60 7

abbrev resent : ApiResult Recorded × Tables
resent = record_sale to_centavos uuid_text later_id first_row basket cashier 70 outcome.1

resent_sale : Recorded
resent_sale = record {
  sale = sale_row to_centavos basket cashier 70 (some recorded.sale);
  created = false;
}

resent_lem : resent ≡ (ok resent_sale, resent.1)
unfolding record_sale resent_sale ◌-ℤ◌ ◌+ℤ◌
resent_lem = refl

record_sale_again_example :
    (stock_of resent.1 7 ≡ stock_of outcome.1 7) × (resent_sale.created ≡ false)
record_sale_again_example =
    record_sale_again to_centavos uuid_text next_id first_row one_row basket cashier 50 shop
      outcome.1 recorded basket-InStore shop-IsSound basket-Distinct refl outcome_lem later_id 70
      resent_sale resent.1 resent_lem 7

-- Another store's device that sends the same sale is refused.
abbrev stranger : Prepared
stranger = record basket { store_id = 2 }

stranger_refused :
    (record_sale to_centavos uuid_text later_id first_row stranger cashier 70 outcome.1).0
    ≡ err (conflict "this record belongs to another store")
unfolding record_sale ◌-ℤ◌ ◌+ℤ◌
stranger_refused = refl

abbrev gone : Option Sale × Tables
gone = void uuid_text first_row 1 5 60 outcome.1

gone_lem : gone ≡ (some (voided 60 recorded.sale), gone.1)
unfolding void record_sale ◌-ℤ◌ ◌+ℤ◌
gone_lem = refl

-- The same rice on two lines.
abbrev more_rice : Line
more_rice = record two_kilos { id = 102; quantity = pos 500 }

abbrev split : Tables
split =
    (record_sale to_centavos uuid_text next_id first_row (sale_of (two_kilos ∷ more_rice ∷ []))
      cashier 50 shop).1

-- The shop sells two and a half kilos, and the voiding puts half a kilo back.
split_stock :
    (stock_of split 7 ≡ pos 22_500)
    × (stock_of (void uuid_text first_row 1 5 60 split).1 7 ≡ pos 23_000)
unfolding record_sale void ◌-ℤ◌ ◌+ℤ◌
split_stock = (refl, refl)

abbrev item_of : Line → Item
item_of l = item_row 5 l

abbrev left_rice : Product
left_rice = record rice { stock_quantity = pos 22_500; updated_at = 50 }

split_rice : split.products 7 ≡ some left_rice
unfolding record_sale ◌-ℤ◌ ◌+ℤ◌
split_rice = refl

split_sale : split.sales 5 ≡ some recorded.sale
unfolding record_sale ◌-ℤ◌ ◌+ℤ◌
split_sale = refl

split_lines : select (is_line_of 5 7) split.items ≡ item_of more_rice ∷ item_of two_kilos ∷ []
unfolding record_sale ◌-ℤ◌ ◌+ℤ◌
split_lines = refl

void_gives_back_less_example :
    stock_of (void uuid_text first_row 1 5 60 split).1 7
    <ℤ stock_of split 7 +ℤ line_sum 5 7 split.items
void_gives_back_less_example =
    void_gives_back_less uuid_text first_row 1 5 60 split recorded.sale left_rice 7
      (item_of more_rice) (item_of two_kilos) [] (λ i is. inl refl) split_sale refl refl split_rice
      refl split_lines (omega arith)

abbrev delivery : Entry
delivery = record {
  store_id = 1;
  movement_id = 900;
  product_id = 7;
  movement = "adjustment";
  effect = set_to (pos 24_000);
  unit_cost = pos 0;
  note = none;
  occurred_at = 45;
}

find-rice : find_product shop 1 7 ≡ some rice
unfolding find_product
find-rice = refl

no_delivery : has_movement 900 shop.movements ≡ false
unfolding has_movement
no_delivery = refl

record_movement_once_example :
    let counted = (record_movement delivery 55 shop).1 in
    (stock_of counted 7 ≡ pos 24_000) × (record_movement delivery 99 counted ≡ (ok none, counted))
record_movement_once_example = record_movement_once delivery 55 99 shop rice 7 find-rice no_delivery

-- A delivery of three kilos, noted as if it were part of the sale.
abbrev noted : Entry
noted = record delivery { effect = change (pos 3_000); note = some "sale five" }

sold_rice : find_product outcome.1 1 7 ≡ some (sell (pos 2_000) 50 rice)
unfolding find_product record_sale ◌-ℤ◌ ◌+ℤ◌
sold_rice = refl

sold_seen : has_movement 900 outcome.1.movements ≡ false
unfolding has_movement record_sale ◌-ℤ◌ ◌+ℤ◌
sold_seen = refl

sold_sale : outcome.1.sales 5 ≡ some recorded.sale
unfolding record_sale ◌-ℤ◌ ◌+ℤ◌
sold_sale = refl

noted_movement_unbalances_example :
    let moved = (record_movement noted 55 outcome.1).1 in
    unexplained (void uuid_text first_row 1 5 60 moved).1 7 ≡ unexplained outcome.1 7 +ℤ pos 3_000
noted_movement_unbalances_example =
    noted_movement_unbalances uuid_text first_row one_row noted 5 55 60 outcome.1
      (sell (pos 2_000) 50 rice) recorded.sale (pos 3_000) sold-IsSound sold_sale refl refl refl
      refl sold_rice sold_seen

basket-HasIds : HasIds uuid_text next_id basket 50 basket.lines
basket-HasIds = (((omega arith, omega arith, λ p e f. ground arith), tt), (tt, tt))

basket-IsFresh : All (IsFresh uuid_text next_id basket 50 shop) basket.lines
unfolding has_item has_movement admits_line admits_stock ◌-ℤ◌
basket-IsFresh = (
  record {
    own = (rice, refl, refl);
    new_item = refl;
    new_movement = refl;
    line_fits = refl;
    stock_fits = λ p e. ground arith;
  },
  (
    record {
      own = tt;
      new_item = refl;
      new_movement = refl;
      line_fits = refl;
      stock_fits = λ p e. ground arith;
    },
    tt,
  ),
)

basket_fits : admits_sale (sale_row to_centavos basket cashier 50 none) ≡ true
unfolding admits_sale
basket_fits = refl

record_sale_accepted_example :
    outcome.0 ≡ ok (record { sale = sale_row to_centavos basket cashier 50 none; created = true })
record_sale_accepted_example =
    record_sale_accepted to_centavos uuid_text next_id basket cashier 50 shop first_row refl refl
      basket_fits basket-HasIds basket-IsFresh
