-- ===== src/Sync/Tests.antt =====
-- Concrete runs of the synchronisation code.
use kitaza.Common.{ℕ, ◌*◌, ◌<◌, ◌≡◌, refl, true, some, List, [], ◌∷◌, map, arith, length}
use mathlib.Core.List.{Perm}
use kitaza.Common.{leb, String, select, ◌==◌, none, ap, sym, ◌+◌, Option, false, true}
use kitaza.Common.Sort.{IsSorted}
use kitaza.Common.Failure.{ok, err, internal, forbidden, not_found}
use kitaza.Access.Actor.{Actor, can}
use kitaza.Access.Permission.{default, view_profit}
use kitaza.Services.Selling.{RecordSaleRequest}
use kitaza.Services.Stockroom.{RecordMovementRequest}
use kitaza.Sync.Timeline.{sale, movement, occurred_at, into_timeline, into_timeline_lem}
use kitaza.Sync.Push.{SyncDependencies, PushRequest, push}
use kitaza.Sync.Push.Answers.{answered, push_answers}
use kitaza.Sync.Pull.{pull_tables, starting}
use kitaza.Sync.Pull.Withheld.{reached, answer, pull-withheld}
use kitaza.Sync.Cursor.{SyncTable, SyncCursor, mark, decode, expenses, withdrawals}
use kitaza.Sync.Cursor
use kitaza.Sync.Cursor.{origin}
use kitaza.Common.Sort.{sort}
use kitaza.Sync.Paging.{Row, is_after, changed_since}
use kitaza.Sync.Paging.Complete.{HasKeys}
use kitaza.Sync.Paging.Download.{left, download, download_all, late_row_is_ahead}

abbrev row : ℕ → ℕ → Row ℕ
row at id = record { updated_at = at; id = id; store_id = 1; value = id * 10 }

-- Three settled rows, two of one transaction, and one that has not settled.
abbrev table : List (Row ℕ)
table = row 7 3 ∷ row 5 9 ∷ row 5 2 ∷ row 98 1 ∷ []

table-HasKeys : HasKeys table
table-HasKeys = (
  (omega arith, (omega arith, (omega arith, tt))),
  ((omega arith, (omega arith, tt)), ((omega arith, tt), (tt, tt))),
)

three_left : length (left 5 100 1 table origin) < 4
unfolding sort
three_left = omega arith

download_all_example :
    download 5 100 1 table 4 origin 2 ≡ map (λ r. r.value) (left 5 100 1 table origin)
download_all_example = download_all 5 100 1 table 4 origin 2 table-HasKeys (omega arith) three_left

first_page_end :
    (changed_since 5 100 table 1 origin 2).last ≡ some (record { updated_at = 5; id = 9 })
unfolding changed_since sort
first_page_end = refl

late_row_is_ahead_example : is_after (record { updated_at = 5; id = 9 }) (row 96 4) ≡ true
late_row_is_ahead_example =
    late_row_is_ahead 5 100 1 table origin (record { updated_at = 5; id = 9 }) 2 (row 96 4)
      first_page_end (omega arith)

abbrev sold_at : ℕ → RecordSaleRequest ℕ
sold_at time = record {
  id = some time;
  payment_method = none;
  discount_amount = 0;
  note = none;
  occurred_at = some time;
  items = [];
}

abbrev counted_at : ℕ → RecordMovementRequest ℕ
counted_at time = record {
  id = some time;
  product_id = 4;
  movement = "adjustment";
  quantity = 10;
  unit_cost = 0;
  note = none;
  occurred_at = some time;
}

-- The count lands between the sales.
replayed_in_order :
    into_timeline 99 (sold_at 30 ∷ sold_at 10 ∷ []) (counted_at 20 ∷ [])
    ≡ sale (sold_at 10) ∷ movement (counted_at 20) ∷ sale (sold_at 30) ∷ []
unfolding into_timeline sort
replayed_in_order = refl

into_timeline_lem_example :
    let timeline = into_timeline 99 (sold_at 30 ∷ sold_at 10 ∷ []) (counted_at 20 ∷ []) in
    Perm timeline (sale (sold_at 30) ∷ sale (sold_at 10) ∷ movement (counted_at 20) ∷ [])
    × IsSorted (λ a b. leb (occurred_at 99 a) (occurred_at 99 b)) timeline
    × (select (λ e. occurred_at 99 e == 20) timeline ≡ movement (counted_at 20) ∷ [])
into_timeline_lem_example =
    into_timeline_lem 99 (sold_at 30 ∷ sold_at 10 ∷ []) (counted_at 20 ∷ []) 20

-- Services that accept products, sales and counts, and refuse the rest.
abbrev services : SyncDependencies ℕ ℕ ℕ ℕ
services = record {
  save_product = λ request s. (ok s, s + 1);
  record_sale = λ request s. (ok s, s + 1);
  record_movement = λ request s. (ok tt, s);
  record_expense = λ request s. (err (internal "no space left"), s);
  record_withdrawal = λ request s. (err (forbidden "only the owner"), s);
  expense_id = λ request. some request;
  withdrawal_id = λ request. some request;
  void_sale = λ id s. (err (not_found "sale"), s);
  remove_expense = λ id s. (ok tt, s);
  remove_withdrawal = λ id s. (ok tt, s);
  remove_product = λ id s. (ok tt, s);
}

abbrev batch : PushRequest ℕ ℕ ℕ
batch = record {
  products = [];
  stock_movements = counted_at 20 ∷ [];
  sales = sold_at 30 ∷ sold_at 10 ∷ [];
  expenses = 8 ∷ [];
  withdrawals = 9 ∷ [];
  deletions = record { entity = "sale"; id = 77 } ∷ [];
}

push_answers_example : answered (push services 99 batch 0).0 ≡ 0 + 1 + 2 + 1 + 1 + 1
push_answers_example = push_answers services 99 batch 0 (refl, tt)

abbrev owner : Actor
owner = record {
  owner_id = 1;
  session_id = 1;
  name = "Aling Nena";
  device_name = "phone";
  staff = none;
  subscription = none;
}

abbrev helper : Actor
helper = record owner {
  staff = some (record { staff_id = 2; store_id = 1; permissions = default });
}

abbrev books : SyncTable → List (Row ℕ)
books shelf = table

abbrev zero_out : String → ℕ → ℕ
zero_out field value = 0

-- The marks that a helper's first pull reaches, and a reader that gives them back.
abbrev marks : SyncCursor
marks =
    (pull_tables 2 5 100 1 books false Cursor.all (starting 2 5 100 1 books Cursor.default)).cursor

abbrev read_back : String → Option SyncCursor
read_back raw = some marks

helper_blind : can helper view_profit ≡ false
unfolding can
helper_blind = refl

owner_sees : can owner view_profit ≡ true
unfolding can
owner_sees = refl

marks_read :
    some marks
    ≡ some (
        reached 2 5 100 1 books zero_out
          (λ row. none)
          (λ ids. [])
          (λ c. "marks")
          read_back
          helper
          none)
unfolding decode
marks_read =
    ap
      (λ sees.
        some
          (pull_tables 2 5 100 1 books sees Cursor.all
            (starting 2 5 100 1 books Cursor.default)).cursor)
      (sym helper_blind)

pull-withheld_example :
    let full =
      answer 2 5 100 1 books zero_out
        (λ row. none)
        (λ ids. [])
        (λ c. "marks")
        read_back
        owner
        none in
    let response =
      answer 2 5 100 1 books zero_out
        (λ row. none)
        (λ ids. [])
        (λ c. "marks")
        read_back
        helper
        none in
    let next = decode read_back (some response.cursor) in
    (response.products ≡ map (zero_out "cost_price") full.products)
    × (response.sales ≡ map (zero_out "cost_amount") full.sales)
    × (response.stock_movements ≡ map (zero_out "unit_cost") full.stock_movements)
    × (response.expenses ≡ [])
    × (response.withdrawals ≡ [])
    × (mark next expenses ≡ mark (decode read_back none) expenses)
    × (mark next withdrawals ≡ mark (decode read_back none) withdrawals)
pull-withheld_example =
    pull-withheld 2 5 100 1 books zero_out (λ row. none) (λ ids. []) (λ c. "marks") read_back owner
      helper none marks_read owner_sees helper_blind
