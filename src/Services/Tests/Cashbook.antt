-- ===== src/Services/Tests/Cashbook.antt =====
-- Concrete runs of the expenses.
use kitaza.Common.{ℕ, ◌≡◌, refl, true, false, none, some}
use kitaza.Common.Int.{pos}
use kitaza.Access.Actor.{Actor, require}
use kitaza.Services.Request.{Env}
use kitaza.Services.Cashbook.{
  Books, RecordExpenseRequest, record_expense, remove_expense, parse, named, upsert_expense,
  answered, soft_delete_expense,
}
use kitaza.Services.Cashbook.Laws.{is_ok, is_live, record_expense-revives}

-- Amounts are counted in centavos already.
abbrev env : Env ℕ
env = record {
  trim = λ s. s;
  to_lowercase = λ s. s;
  round_dp = λ _ n. some (pos n);
  round_money = λ n. n;
  new_v4 = λ n. n;
}

abbrev helper : Actor
helper = record {
  owner_id = 1;
  session_id = 10;
  name = "Jun";
  device_name = "phone";
  staff = some (record {
    staff_id = 5;
    store_id = 2;
    permissions = record {
      manage_products = false;
      record_expenses = true;
      view_profit = false;
      delete_records = false;
    };
  });
  subscription = none;
}

abbrev owner : Actor
owner = record helper { staff = none }

abbrev request : RecordExpenseRequest ℕ
request = record {
  id = some 7;
  category = "rent";
  description = none;
  amount = 500;
  occurred_at = some 90;
}

abbrev books : Books
books = record { expenses = λ _. none; withdrawals = λ _. none }

recorded_lem : is_ok (record_expense env 2 helper 100 request books).0 ≡ true
unfolding record_expense require parse named upsert_expense answered
recorded_lem = refl

removed_lem :
    is_ok (remove_expense 2 owner 150 7 (record_expense env 2 helper 100 request books).1).0 ≡ true
unfolding record_expense require parse named upsert_expense answered remove_expense
    soft_delete_expense
removed_lem = refl

record_expense-revives_example :
    let b' = (remove_expense 2 owner 150 7 (record_expense env 2 helper 100 request books).1).1 in
    let (answer, b'', _) = record_expense env 2 helper 200 request b' in
    (is_live (b'.expenses 7) ≡ false) × (is_ok answer ≡ true) × (is_live (b''.expenses 7) ≡ true)
record_expense-revives_example =
    record_expense-revives env 2 helper request owner 100 150 200 90 7 books refl refl recorded_lem
      removed_lem
